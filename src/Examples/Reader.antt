-- ===== src/Examples/Reader.antt =====
-- The class `Reader` of examples/dbus/dbus-message.h: a cursor over a buffer that throws where the
-- buffer ends. Its data are those of the library's reader, which it shares as a record.
pub mod Agrees
pub mod Agreement
pub mod Safety
use firmir.Base.{
  ℕ, ◌+◌, ◌-◌, ◌%◌, ◌^◌, Bool, Option, none, some, List, length, get_elem?, take, drop, ltb, leb,
  ◌==◌, not, if◌then◌else◌,
}
use firmir.Base.Int.{ℤ, to_signed}
use firmir.Dbus.Wire.{in_order, size_mod, load, bswap16, bswap32, bswap64}
use firmir.Dbus.Message.Reader.{Reader}

-- The exceptions, by their texts.
pub data DbusError : Type 0 where
  align_past_end read_past_end string_not_terminated signature_not_terminated : DbusError
  array_past_end seek_past_end too_short invalid_endianness unsupported_version : DbusError
  body_exceeds_buffer : DbusError

-- A result; an exception; a read outside the buffer; and that the model's fuel is used up.
pub data Outcome {ℓ} (A : Type ℓ) : Type ℓ where
  done : A → Reader → Outcome A
  threw : DbusError → Outcome A
  overran out_of_fuel : Outcome A

abbrev pub M {ℓ} : Type ℓ → Type ℓ
M A = Reader → Outcome A

abbrev pub pure {ℓ} : {A : Type ℓ} → A → M A
pure a r = done a r

abbrev pub throw {ℓ} : {A : Type ℓ} → DbusError → M A
throw e r = threw e

infixl 5 ◌>>=◌ ◌>>◌
abbrev pub ◌>>=◌ {ℓ κ} : {A : Type ℓ} {B : Type κ} → M A → (A → M B) → M B
◌>>=◌ m f r = elim (m r) [
  | done a r' ↦ f a r'
  | threw e ↦ threw e
  | overran ↦ overran
  | out_of_fuel ↦ out_of_fuel
]

abbrev pub ◌>>◌ {ℓ} : {B : Type ℓ} → M (Unit {0}) → M B → M B
m >> k = m >>= λ _. k

abbrev pub branch {ℓ} : {A : Type ℓ} → Bool → M A → M A → M A
branch c m k r = if c then m r else k r

abbrev pub position : M ℕ
position r = done r.pos r

-- `eof`
abbrev pub at_end : M Bool
at_end r = done (leb (length r.bytes) r.pos) r

unfoldable pub align : ℕ → M (Unit {0})
align a r =
    let rem = r.pos % a in
    let p = if rem == 0 then r.pos else (r.pos + (a - rem)) % size_mod in
    if ltb (length r.bytes) p then threw align_past_end else done tt (record r { pos = p })

unfoldable pub check : ℕ → M (Unit {0})
check n r = if ltb (length r.bytes) ((r.pos + n) % size_mod) then threw read_past_end else done tt r

unfoldable pub seek : ℕ → M (Unit {0})
seek p r = if ltb (length r.bytes) p then threw seek_past_end else done tt (record r { pos = p })

-- `n` bytes at `data_ + pos_`.
unfoldable pub window : ℕ → M (List ℕ)
window n r =
    if leb (r.pos + n) (length r.bytes) then done (take n (drop r.pos r.bytes)) r else overran

-- `pos_ += n`
unfoldable pub advance : ℕ → M (Unit {0})
advance n r = done tt (record r { pos = r.pos + n })

-- `data_[pos_]`
unfoldable pub current : M ℕ
current r = elim (get_elem? r.bytes r.pos) [ none ↦ overran | some b ↦ done b r ]

-- `get_u16` and its like.
unfoldable pub get_uint : ℕ → (ℕ → ℕ) → M ℕ
get_uint n swap r = (do bytes ← window n; pure (in_order swap r.endian (load bytes))) r

unfoldable pub read_u8 : M ℕ
unfolding advance
read_u8 = do check 1; b ← current; advance 1; pure b

unfoldable pub read_aligned : ℕ → (ℕ → ℕ) → M ℕ
unfolding advance
read_aligned n swap = do align n; check n; v ← get_uint n swap; advance n; pure v

unfoldable pub read_u16 : M ℕ
unfolding read_aligned
read_u16 = read_aligned 2 bswap16

unfoldable pub read_u32 : M ℕ
unfolding read_aligned
read_u32 = read_aligned 4 bswap32

unfoldable pub read_u64 : M ℕ
unfolding read_aligned
read_u64 = read_aligned 8 bswap64

unfoldable pub read_i16 : M ℤ
read_i16 = do v ← read_u16; pure (to_signed (2 ^ 15) v)

unfoldable pub read_i32 : M ℤ
read_i32 = do v ← read_u32; pure (to_signed (2 ^ 31) v)

unfoldable pub read_i64 : M ℤ
read_i64 = do v ← read_u64; pure (to_signed (2 ^ 63) v)

-- A `double` is its bit pattern.
unfoldable pub read_double : M ℕ
unfolding read_aligned
read_double = read_aligned 8 bswap64

unfoldable pub read_bool : M Bool
read_bool = do v ← read_u32; pure (not (v == 0))

-- The `len` bytes at `pos_`, behind which a zero byte must stand.
unfoldable pub read_terminated : ℕ → DbusError → M (List ℕ)
unfolding advance
read_terminated len e = do
  s ← window len
  advance len
  end ← current
  branch (end == 0) (do advance 1; pure s) (throw e)

-- `len + 1` is a sum of type `uint32_t`.
unfoldable pub read_string : M (List ℕ)
read_string = do
  len ← read_u32
  check ((len + 1) % 2 ^ 32)
  read_terminated len string_not_terminated

-- `len + 1` is a sum of type `int`.
unfoldable pub read_signature : M (List ℕ)
read_signature = do len ← read_u8; check (len + 1); read_terminated len signature_not_terminated

unfoldable pub read_array_bounds : ℕ → M (ℕ × ℕ)
read_array_bounds element_align = do
  len ← read_u32
  align element_align
  start ← position
  let end = (start + len) % size_mod
  λ r. if ltb (length r.bytes) end then threw array_past_end else done (start, end) r

unfoldable pub read_bytes : ℕ → M (List ℕ)
unfolding advance
read_bytes n = do check n; v ← window n; advance n; pure v
