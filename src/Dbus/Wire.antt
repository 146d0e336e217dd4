-- ===== src/Dbus/Wire.antt =====
-- Numbers on the wire: the byte swaps of dbus/message.cpp and the `memcpy` between a number and
-- the bytes that hold it. The host is little-endian, as the source's test for `Big` supposes.
pub mod Swap
use firmir.Base.{
  ℕ, zero, suc, ◌+◌, ◌*◌, ◌/◌, ◌%◌, ◌^◌, ◌<◌, Bool, List, [], ◌∷◌, ◌==◌, if◌then◌else◌,
}
use Prim.Native.Nat.{bit_and, bit_or}

-- An `enum class` with `uint8_t` below it holds any byte, since the source casts into it unchecked.
abbrev pub Endianness : Type 0
Endianness = ℕ

abbrev pub little : Endianness
little = b'l'

abbrev pub big : Endianness
big = b'B'

abbrev pub IsByte : ℕ → Type 0
IsByte b = b < 256

abbrev pub IsUint32 : ℕ → Type 0
IsUint32 v = v < 2 ^ 32

abbrev pub size_mod : ℕ
size_mod = 2 ^ 64

-- The bytes that `memcpy` finds in the number `v` of `n` bytes, and the number that it makes of
-- bytes.
unfoldable pub store : ℕ → ℕ → List ℕ
store zero v = []
store (suc n) v = (v % 256) ∷ store n (v / 256)

unfoldable pub load : List ℕ → ℕ
load [] = 0
load (b ∷ bs) = b + 256 * load bs

unfoldable pub bswap16 : ℕ → ℕ
bswap16 v = bit_or (v / 2 ^ 8) (v * 2 ^ 8) % 2 ^ 16

unfoldable pub bswap32 : ℕ → ℕ
bswap32 v =
    bit_or
      (bit_or (bit_or (bit_and v 0xFF000000 / 2 ^ 24) (bit_and v 0x00FF0000 / 2 ^ 8))
        (bit_and v 0x0000FF00 * 2 ^ 8 % 2 ^ 32))
      (bit_and v 0x000000FF * 2 ^ 24 % 2 ^ 32)

unfoldable pub bswap64 : ℕ → ℕ
unfolding bswap32
bswap64 v = bit_or (bswap32 (v % 2 ^ 32) * 2 ^ 32 % 2 ^ 64) (bswap32 (v / 2 ^ 32 % 2 ^ 32))

-- `if (endian == Endianness::Big) v = bswap(v);`
unfoldable pub in_order : (ℕ → ℕ) → Endianness → ℕ → ℕ
in_order swap e v = if e == big then swap v else v
