-- ===== src/Dbus/Message/Writer.antt =====
-- `MessagePrivate::Writer` of dbus/message.cpp: a buffer that grows at its end.
pub mod Appends
use firmir.Base.{
  ℕ, ◌+◌, ◌-◌, ◌%◌, ◌^◌, Bool, List, [], ◌∷◌, ◌++◌, length, replicate, ◌==◌, if◌then◌else◌,
}
use firmir.Base.Int.{ℤ, to_unsigned}
use firmir.Dbus.Wire.{Endianness, store, bswap16, bswap32, bswap64, in_order}

pub record Writer : Type 0 where
  pub bytes : List ℕ
  pub endian : Endianness

-- `data.insert(data.end(), …)`
abbrev pub append : Writer → List ℕ → Writer
append w bs = record w { bytes = w.bytes ++ bs }

-- The new elements of a vector that `resize` grows are zero.
unfoldable pub align : ℕ → Writer → Writer
align a w =
    let rem = length w.bytes % a in
    if rem == 0 then w else append w (replicate (length w.bytes + a - rem - length w.bytes) 0)

unfoldable pub write_uint8 : ℕ → Writer → Writer
write_uint8 v w = append w (v ∷ [])

unfoldable pub write_uint : ℕ → (ℕ → ℕ) → ℕ → Writer → Writer
write_uint n swap v w = let w' = align n w in append w' (store n (in_order swap w'.endian v))

unfoldable pub write_uint16 : ℕ → Writer → Writer
unfolding write_uint
write_uint16 = write_uint 2 bswap16

unfoldable pub write_uint32 : ℕ → Writer → Writer
unfolding write_uint
write_uint32 = write_uint 4 bswap32

unfoldable pub write_uint64 : ℕ → Writer → Writer
unfolding write_uint
write_uint64 = write_uint 8 bswap64

unfoldable pub write_int16 : ℤ → Writer → Writer
write_int16 v = write_uint16 (to_unsigned (2 ^ 15) v)

unfoldable pub write_int32 : ℤ → Writer → Writer
write_int32 v = write_uint32 (to_unsigned (2 ^ 31) v)

unfoldable pub write_int64 : ℤ → Writer → Writer
write_int64 v = write_uint64 (to_unsigned (2 ^ 63) v)

-- A `double` is its bit pattern.
unfoldable pub write_double : ℕ → Writer → Writer
write_double bits = write_uint64 bits

unfoldable pub write_bool : Bool → Writer → Writer
write_bool v = write_uint32 (if v then 1 else 0)

unfoldable pub write_string : List ℕ → Writer → Writer
write_string s w = append (append (write_uint32 (length s % 2 ^ 32) w) s) (0 ∷ [])

unfoldable pub write_signature : List ℕ → Writer → Writer
write_signature s w = append (append (write_uint8 (length s % 2 ^ 8) w) s) (0 ∷ [])
