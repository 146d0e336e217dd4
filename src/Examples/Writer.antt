-- ===== src/Examples/Writer.antt =====
-- The class `Writer` of examples/dbus/dbus-message.h: a buffer that grows at its end. Its data are
-- those of the library's writer, which it shares as a record.
pub mod Appends
use firmir.Base.{
  ℕ, zero, suc, ◌+◌, ◌-◌, ◌%◌, ◌^◌, Bool, Option, none, some, List, [], ◌∷◌, ◌++◌, length, take,
  drop, ltb, ◌==◌, if◌then◌else◌,
}
use firmir.Base.Int.{ℤ, to_unsigned}
use firmir.Dbus.Wire.{store, bswap16, bswap32, bswap64, in_order}
use firmir.Dbus.Message.Writer
use firmir.Dbus.Message.Writer.{Writer}

-- `buf_.insert(buf_.end(), …)`
abbrev pub append : Writer → List ℕ → Writer
append w bs = Writer.append w bs

-- The loop that adds zeros, on fuel.
unfoldable pub align_loop : ℕ → ℕ → Writer → Writer
align_loop zero a w = w
align_loop (suc fuel) a w =
    let more = align_loop fuel a (append w (0 ∷ [])) in if length w.bytes % a == 0 then w else more

-- Fewer than `a` zeros are missing to a multiple of `a`.
unfoldable pub align : ℕ → Writer → Writer
unfolding align_loop
align a w = align_loop a a w

unfoldable pub write_u8 : ℕ → Writer → Writer
write_u8 v w = append w (v ∷ [])

unfoldable pub write_uint : ℕ → (ℕ → ℕ) → ℕ → Writer → Writer
unfolding align
write_uint n swap v w = let w' = align n w in append w' (store n (in_order swap w'.endian v))

unfoldable pub write_u16 : ℕ → Writer → Writer
unfolding write_uint
write_u16 = write_uint 2 bswap16

unfoldable pub write_u32 : ℕ → Writer → Writer
unfolding write_uint
write_u32 = write_uint 4 bswap32

unfoldable pub write_u64 : ℕ → Writer → Writer
unfolding write_uint
write_u64 = write_uint 8 bswap64

unfoldable pub write_i16 : ℤ → Writer → Writer
write_i16 v = write_u16 (to_unsigned (2 ^ 15) v)

unfoldable pub write_i32 : ℤ → Writer → Writer
write_i32 v = write_u32 (to_unsigned (2 ^ 31) v)

unfoldable pub write_i64 : ℤ → Writer → Writer
write_i64 v = write_u64 (to_unsigned (2 ^ 63) v)

unfoldable pub write_bool : Bool → Writer → Writer
write_bool v = write_u32 (if v then 1 else 0)

-- A `double` is its bit pattern.
unfoldable pub write_double : ℕ → Writer → Writer
write_double bits = write_u64 bits

unfoldable pub write_string : List ℕ → Writer → Writer
write_string s w = append (append (write_u32 (length s % 2 ^ 32) w) s) (0 ∷ [])

-- Code that writes, and may throw.
abbrev pub Writing : Type 0
Writing = Writer → Option Writer

infixl 5 ◌>=>◌
abbrev pub ◌>=>◌ : Writing → Writing → Writing
◌>=>◌ f g w = elim (f w) [ none ↦ none | some w' ↦ g w' ]

abbrev pub writes : (Writer → Writer) → Writing
writes f w = some (f w)

unfoldable pub write_signature : List ℕ → Writing
write_signature s w =
    if ltb 255 (length s)
    then none
    else some (append (append (write_u8 (length s % 2 ^ 8) w) s) (0 ∷ []))

-- `memcpy(buf_.data() + pos, …)`
unfoldable pub patch : ℕ → List ℕ → Writer → Writer
patch pos bs w = record w { bytes = take pos w.bytes ++ (bs ++ drop (pos + length bs) w.bytes) }

abbrev pub patched : ℕ → ℕ → Option Writer → Option Writer
patched len_pos data_start none = none
patched len_pos data_start (some w) =
    let len = (length w.bytes - data_start) % 2 ^ 32 in
    some (patch len_pos (store 4 (in_order bswap32 w.endian len)) w)

-- The place of the length is noted before `write_u32` aligns.
unfoldable pub write_array : ℕ → Writing → Writing
write_array element_align write_elements w =
    let w' = align element_align (write_u32 0 w) in
    patched (length w.bytes) (length w'.bytes) (write_elements w')
