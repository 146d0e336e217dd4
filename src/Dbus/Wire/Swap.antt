-- ===== src/Dbus/Wire/Swap.antt =====
-- The byte swaps of dbus/message.cpp, as arithmetic and on bytes in memory.
use Prim.Native.Nat.{bit_and}
use mathlib.Core.List.{reverse}
use native.Mathlib.Nat.{pow-suc}
use firmir.Base.{
  ap, subst, sym, ℕ, zero, suc, ◌+◌, ◌*◌, ◌/◌, ◌%◌, ◌^◌, ◌<◌, ◌≡◌, refl, arith, List, [], ◌∷◌,
  length, All,
}
use firmir.Base.Bits.{bit_or_high, bit_or_low, bit_and_byte}
use firmir.Dbus.Wire.{IsByte, IsUint32, store, load, bswap16, bswap32, bswap64}

bswap16_lem : (v : ℕ) → v < 2 ^ 16 → bswap16 v ≡ v / 256 + v % 256 * 256
unfolding bswap16
bswap16_lem v h = omega (arith, bit_or_low 8 v (v / 256) (omega arith))

swapped32 : ℕ → ℕ
swapped32 v = v / 2 ^ 24 + v / 2 ^ 16 % 256 * 2 ^ 8 + v / 2 ^ 8 % 256 * 2 ^ 16 + v % 256 * 2 ^ 24

bswap32_lem : (v : ℕ) → IsUint32 v → bswap32 v ≡ swapped32 v
unfolding bswap32 swapped32
bswap32_lem v h =
    let e0 : bit_and v 0xFF000000 / 2 ^ 24 ≡ v / 2 ^ 24 = omega (arith, bit_and_byte 24 v) in
    let e1 : bit_and v 0x00FF0000 / 2 ^ 8 ≡ v / 2 ^ 16 % 256 * 2 ^ 8 =
      omega (arith, bit_and_byte 16 v) in
    let e2 : bit_and v 0x0000FF00 * 2 ^ 8 % 2 ^ 32 ≡ v / 2 ^ 8 % 256 * 2 ^ 16 =
      omega (arith, bit_and_byte 8 v) in
    let e3 : bit_and v 0x000000FF * 2 ^ 24 % 2 ^ 32 ≡ v % 256 * 2 ^ 24 =
      omega (arith, bit_and_byte 0 v) in
    rw (
      e0,
      e1,
      e2,
      e3,
      bit_or_low 8 (v / 2 ^ 16 % 256) (v / 2 ^ 24) (omega arith),
      bit_or_low 16 (v / 2 ^ 8 % 256) (v / 2 ^ 24 + v / 2 ^ 16 % 256 * 2 ^ 8) (omega arith),
      bit_or_low 24 (v % 256) (v / 2 ^ 24 + v / 2 ^ 16 % 256 * 2 ^ 8 + v / 2 ^ 8 % 256 * 2 ^ 16)
          (omega arith),
    )

swapped32-lt : (v : ℕ) → IsUint32 v → swapped32 v < 2 ^ 32
unfolding swapped32
swapped32-lt v h = omega arith

-- The four bytes of a number, lowest first.
abbrev of_bytes : ℕ → ℕ → ℕ → ℕ → ℕ
of_bytes a b c d = a + 256 * (b + 256 * (c + 256 * d))

swapped32-of_bytes :
    (a b c d : ℕ)
    → IsByte a
    → IsByte b
    → IsByte c
    → IsByte d
    → swapped32 (of_bytes a b c d) ≡ of_bytes d c b a
unfolding swapped32
swapped32-of_bytes a b c d ha hb hc hd = omega arith

-- A fact about the four bytes of a number is a fact about the number.
by_bytes :
    (P : ℕ → Type 0)
    → ((a b c d : ℕ) → IsByte a → IsByte b → IsByte c → IsByte d → P (of_bytes a b c d))
    → (v : ℕ) → IsUint32 v
    → P v
by_bytes P p v h =
    let e : v ≡ of_bytes (v % 256) (v / 2 ^ 8 % 256) (v / 2 ^ 16 % 256) (v / 2 ^ 24) =
      omega arith in
    subst P (sym e) (p _ _ _ _ (omega arith) (omega arith) (omega arith) (omega arith))

store-of_bytes :
    (a b c d : ℕ)
    → IsByte a
    → IsByte b
    → IsByte c
    → IsByte d
    → store 4 (of_bytes a b c d) ≡ a ∷ b ∷ c ∷ d ∷ []
unfolding store
store-of_bytes a b c d ha hb hc hd = ground arith

pub bswap32-lt : (v : ℕ) → IsUint32 v → IsUint32 (bswap32 v)
bswap32-lt v h = rw (bswap32_lem v h) (swapped32-lt v h)

pub bswap32_twice : (v : ℕ) → IsUint32 v → bswap32 (bswap32 v) ≡ v
bswap32_twice v h =
    rw (bswap32_lem v h, bswap32_lem (swapped32 v) (swapped32-lt v h))
      (by_bytes (λ w. swapped32 (swapped32 w) ≡ w)
        (λ a b c d ha hb hc hd.
          rw (swapped32-of_bytes a b c d ha hb hc hd) (swapped32-of_bytes d c b a hd hc hb ha))
        v h)

-- In memory, the swapped form of a 32-bit number has the bytes of the number in reverse.
pub store-bswap32 : (v : ℕ) → IsUint32 v → store 4 (bswap32 v) ≡ reverse (store 4 v)
store-bswap32 v h = rw (bswap32_lem v h) (
    by_bytes (λ w. store 4 (swapped32 w) ≡ reverse (store 4 w))
      (λ a b c d ha hb hc hd. rw (
        swapped32-of_bytes a b c d ha hb hc hd,
        store-of_bytes d c b a hd hc hb ha,
        store-of_bytes a b c d ha hb hc hd,
      ))
      v h)

pub bswap16-lt : (v : ℕ) → v < 2 ^ 16 → bswap16 v < 2 ^ 16
bswap16-lt v h = omega (arith, bswap16_lem v h)

pub bswap16_twice : (v : ℕ) → v < 2 ^ 16 → bswap16 (bswap16 v) ≡ v
bswap16_twice v h = omega (arith, bswap16_lem v h, bswap16_lem (bswap16 v) (bswap16-lt v h))

bswap64_lem :
    (v : ℕ) → v < 2 ^ 64 → bswap64 v ≡ bswap32 (v % 2 ^ 32) * 2 ^ 32 + bswap32 (v / 2 ^ 32)
unfolding bswap64
bswap64_lem v h =
    let high : v / 2 ^ 32 % 2 ^ 32 ≡ v / 2 ^ 32 = omega arith in
    let low : bswap32 (v % 2 ^ 32) * 2 ^ 32 % 2 ^ 64 ≡ bswap32 (v % 2 ^ 32) * 2 ^ 32 =
      omega (arith, bswap32-lt (v % 2 ^ 32) (omega arith)) in
    rw (high, low)
      (bit_or_high 32 (bswap32 (v % 2 ^ 32)) (bswap32 (v / 2 ^ 32))
        (bswap32-lt (v / 2 ^ 32) (omega arith)))

pub bswap64-lt : (v : ℕ) → v < 2 ^ 64 → bswap64 v < 2 ^ 64
bswap64-lt v h = omega (
  arith,
  bswap64_lem v h,
  bswap32-lt (v % 2 ^ 32) (omega arith),
  bswap32-lt (v / 2 ^ 32) (omega arith),
)

-- Swapping a 64-bit number twice gives the number back.
pub bswap64_twice : (v : ℕ) → v < 2 ^ 64 → bswap64 (bswap64 v) ≡ v
bswap64_twice v h =
    let lo = bswap32 (v % 2 ^ 32) in
    let hi = bswap32 (v / 2 ^ 32) in
    let lo-lt : lo < 2 ^ 32 = bswap32-lt (v % 2 ^ 32) (omega arith) in
    let hi-lt : hi < 2 ^ 32 = bswap32-lt (v / 2 ^ 32) (omega arith) in
    let low : (lo * 2 ^ 32 + hi) % 2 ^ 32 ≡ hi = omega arith in
    let high : (lo * 2 ^ 32 + hi) / 2 ^ 32 ≡ lo = omega arith in
    rw
      (
        bswap64_lem v h,
        bswap64_lem (lo * 2 ^ 32 + hi) (omega arith),
        low,
        high,
        bswap32_twice (v % 2 ^ 32) (omega arith),
        bswap32_twice (v / 2 ^ 32) (omega arith),
      )
      (omega arith)

pub length-store : (n v : ℕ) → length (store n v) ≡ n
unfolding store
length-store zero v = refl
length-store (suc n) v = ap suc (length-store n (v / 256))

pub store-IsByte : (n v : ℕ) → All IsByte (store n v)
unfolding store
store-IsByte zero v = tt
store-IsByte (suc n) v = (omega arith, store-IsByte n (v / 256))

pub load-store : (n v : ℕ) → v < 256 ^ n → load (store n v) ≡ v
unfolding load store
load-store zero v h = omega arith
load-store (suc n) v h = omega (arith, load-store n (v / 256) (omega (arith, pow-suc 256 n)))

pub load-lt : (bs : List ℕ) → All IsByte bs → load bs < 256 ^ length bs
unfolding load
load-lt [] h = omega arith
load-lt (b ∷ bs) h = omega (arith, load-lt bs h.1, pow-suc 256 (length bs))
