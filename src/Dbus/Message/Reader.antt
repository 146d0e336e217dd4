-- ===== src/Dbus/Message/Reader.antt =====
-- `MessagePrivate::Reader` of dbus/message.cpp: a cursor over a buffer.
pub mod Safety
pub mod Strings
pub mod Overrun
pub mod Replay
use firmir.Base.{
  ℕ, ◌+◌, ◌-◌, ◌*◌, ◌%◌, ◌^◌, Bool, true, false, ◌&&◌, not, Option, none, some, List, length,
  get_elem?, take, drop, leb, ◌==◌, if◌then◌else◌,
}
use firmir.Base.Int.{ℤ, to_signed}
use firmir.Dbus.Wire.{Endianness, in_order, size_mod, load, bswap16, bswap32, bswap64}

pub record Reader : Type 0 where
  pub bytes : List ℕ
  pub pos : ℕ
  pub endian : Endianness

-- What ends a run with no result: a read outside the buffer (undefined behaviour in the source),
-- `value()` of an empty optional, and a loop of the model that used up its fuel.
pub data Stop : Type 0 where
  out_of_bounds bad_optional_access out_of_fuel : Stop

pub data Outcome {ℓ} (A : Type ℓ) : Type ℓ where
  done : A → Reader → Outcome A
  stopped : Stop → Outcome A

-- Code that runs over the reader.
abbrev pub M {ℓ} : Type ℓ → Type ℓ
M A = Reader → Outcome A

abbrev pub pure {ℓ} : {A : Type ℓ} → A → M A
pure a r = done a r

infixl 5 ◌>>=◌ ◌>>◌
abbrev pub ◌>>=◌ {ℓ κ} : {A : Type ℓ} {B : Type κ} → M A → (A → M B) → M B
◌>>=◌ m f r = elim (m r) [ done a r' ↦ f a r' | stopped s ↦ stopped s ]

abbrev pub ◌>>◌ {ℓ} : {B : Type ℓ} → M (Unit {0}) → M B → M B
m >> k = m >>= λ _. k

abbrev pub branch {ℓ} : {A : Type ℓ} → Bool → M A → M A → M A
branch c m k r = if c then m r else k r

-- `if (!v) return {};`
abbrev pub with_value {ℓ κ} :
    {A : Type ℓ} {B : Type κ} → Option A → (A → M (Option B)) → M (Option B)
with_value none f r = done none r
with_value (some a) f r = f a r

-- `pos` and `n` are of type `size_t`, and so is their sum.
unfoldable pub check : ℕ → M Bool
check n r = done (leb ((r.pos + n) % size_mod) (length r.bytes)) r

unfoldable pub seek : ℕ → M Bool
seek new_pos r =
    if leb (new_pos % size_mod) (length r.bytes)
    then done true (record r { pos = new_pos % size_mod })
    else done false r

unfoldable pub align : ℕ → M Bool
unfolding seek
align a r = let rem = r.pos % a in if rem == 0 then done true r else seek (r.pos + a - rem) r

-- The `n` bytes at `pos`.
unfoldable pub window : ℕ → M (List ℕ)
window n r =
    if leb (r.pos + n) (length r.bytes)
    then done (take n (drop r.pos r.bytes)) r
    else stopped out_of_bounds

-- `pos += n`
unfoldable pub advance : ℕ → M (Unit {0})
advance n r = done tt (record r { pos = r.pos + n })

-- `data[pos]`
unfoldable pub current : M ℕ
current r = elim (get_elem? r.bytes r.pos) [ none ↦ stopped out_of_bounds | some b ↦ done b r ]

unfoldable pub get_uint : ℕ → (ℕ → ℕ) → M ℕ
unfolding advance
get_uint n swap r = (do bytes ← window n; advance n; pure (in_order swap r.endian (load bytes))) r

unfoldable pub get_uint16 : M ℕ
get_uint16 = get_uint 2 bswap16

unfoldable pub get_uint32 : M ℕ
get_uint32 = get_uint 4 bswap32

unfoldable pub get_uint64 : M ℕ
get_uint64 = get_uint 8 bswap64

unfoldable pub read_uint8 : M (Option ℕ)
unfolding check advance
read_uint8 = do
  enough ← check 1
  branch enough (do b ← current; advance 1; pure (some b)) (pure none)

-- `if (!align(n) || !check(n)) return {};`, and then the value.
unfoldable pub read_aligned : ℕ → M ℕ → M (Option ℕ)
unfolding check
read_aligned n get = do
  aligned ← align n
  enough ← check n
  branch (aligned && enough) (do v ← get; pure (some v)) (pure none)

unfoldable pub read_uint16 : M (Option ℕ)
unfolding get_uint16
read_uint16 = read_aligned 2 get_uint16

unfoldable pub read_uint32 : M (Option ℕ)
unfolding get_uint32
read_uint32 = read_aligned 4 get_uint32

unfoldable pub read_uint64 : M (Option ℕ)
unfolding get_uint64
read_uint64 = read_aligned 8 get_uint64

unfoldable pub read_int16 : M (Option ℤ)
read_int16 = do v ← read_uint16; with_value v λ w. pure (some (to_signed (2 ^ 15) w))

unfoldable pub read_int32 : M (Option ℤ)
read_int32 = do v ← read_uint32; with_value v λ w. pure (some (to_signed (2 ^ 31) w))

unfoldable pub read_int64 : M (Option ℤ)
read_int64 = do v ← read_uint64; with_value v λ w. pure (some (to_signed (2 ^ 63) w))

-- A `double` is its bit pattern. The results of `align` and `check` are not looked at.
unfoldable pub read_double : M (Option ℕ)
read_double = do _ ← align 8; _ ← check 8; bits ← get_uint64; pure (some bits)

unfoldable pub read_bool : M (Option Bool)
read_bool = do v ← read_uint32; with_value v λ w. pure (some (not (w == 0)))

-- The `len` bytes at `pos`, behind which a zero byte must stand.
unfoldable pub read_terminated : ℕ → M (Option (List ℕ))
unfolding advance
read_terminated len = do
  s ← window len
  advance len
  end ← current
  branch (end == 0) (do advance 1; pure (some s)) (pure none)

-- `*len + 1` is a sum of type `uint32_t`.
unfoldable pub read_string : M (Option (List ℕ))
unfolding check
read_string = do
  v ← read_uint32
  with_value v
      λ len. do enough ← check ((len + 1) % 2 ^ 32); branch enough (read_terminated len) (pure none)

-- `*len + 1` is a sum of type `int`.
unfoldable pub read_signature : M (Option (List ℕ))
unfolding check
read_signature = do
  v ← read_uint8
  with_value v λ len. do enough ← check (len + 1); branch enough (read_terminated len) (pure none)
