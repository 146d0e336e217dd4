-- ===== src/Base/Bits.antt =====
-- `|` of fields that do not overlap and `&` with a mask of one byte, as arithmetic.
use Prim.Native.Nat.{
  ℕ, zero, suc, ◌+◌, ◌*◌, ◌/◌, ◌%◌, ◌^◌, ◌≤◌, ◌<◌, min, max, bit_and, bit_or, digits,
  bit_and-bitwise, bit_or-bitwise,
}
use mathlib.Core.Path.{◌≡◌, refl, sym, ap, ◌∙◌}
use native.Mathlib.Nat.{pow-suc, one-le-pow, mod-lt, div-add-mod'}
use native.Mathlib.Omega.{arith}

-- More rounds than digits change nothing.
module _ (alone : ℕ → ℕ) (both : ℕ → ℕ → ℕ) where
  enough_rounds : (n m a b : ℕ) → a ≤ n → a ≤ m → digits alone both n a b ≡ digits alone both m a b
  enough_rounds zero zero a b p q = refl
  enough_rounds zero (suc m) zero b p q = refl
  enough_rounds zero (suc m) (suc a) b p q = absurd (omega arith)
  enough_rounds (suc n) zero zero b p q = refl
  enough_rounds (suc n) zero (suc a) b p q = absurd (omega arith)
  enough_rounds (suc n) (suc m) zero b p q = refl
  enough_rounds (suc n) (suc m) (suc a) b p q =
      omega (arith, enough_rounds n m (suc a / 2) (b / 2) (omega arith) (omega arith))

or_digit : (a b : ℕ) → bit_or a b ≡ bit_or (a / 2) (b / 2) * 2 + max (a % 2) (b % 2)
or_digit zero b = omega (arith, bit_or-bitwise 0 b, bit_or-bitwise 0 (b / 2))
or_digit (suc a) b = omega (
  arith,
  bit_or-bitwise (suc a) b,
  bit_or-bitwise (suc a / 2) (b / 2),
  enough_rounds (λ c. c) max a (suc a / 2) (suc a / 2) (b / 2) (omega arith) (omega arith),
)

and_digit : (a b : ℕ) → bit_and a b ≡ bit_and (a / 2) (b / 2) * 2 + min (a % 2) (b % 2)
and_digit zero b = omega (arith, bit_and-bitwise 0 b, bit_and-bitwise 0 (b / 2))
and_digit (suc a) b = omega (
  arith,
  bit_and-bitwise (suc a) b,
  bit_and-bitwise (suc a / 2) (b / 2),
  enough_rounds (λ c. 0) min a (suc a / 2) (suc a / 2) (b / 2) (omega arith) (omega arith),
)

or_zero_below : (n a : ℕ) → a ≤ n → bit_or a 0 ≡ a
or_zero_below n zero h = refl
or_zero_below zero (suc a) h = absurd (omega arith)
or_zero_below (suc n) (suc a) h =
    omega (arith, or_digit (suc a) 0, or_zero_below n (suc a / 2) (omega arith))

and_zero_below : (n a : ℕ) → a ≤ n → bit_and a 0 ≡ 0
and_zero_below n zero h = refl
and_zero_below zero (suc a) h = absurd (omega arith)
and_zero_below (suc n) (suc a) h =
    omega (arith, and_digit (suc a) 0, and_zero_below n (suc a / 2) (omega arith))

zero-bit_or : (b : ℕ) → bit_or 0 b ≡ b
zero-bit_or b = bit_or-bitwise 0 b

double_pow : (q k : ℕ) → q * 2 ^ suc k ≡ 2 * (q * 2 ^ k)
double_pow q k = omega (arith, ap (λ (t : ℕ). q * t) (pow-suc 2 k))

-- A field of `k` low bits beside a field above it, in either order.
pub bit_or_high : (k q r : ℕ) → r < 2 ^ k → bit_or (q * 2 ^ k) r ≡ q * 2 ^ k + r
bit_or_high zero q zero h = omega (arith, or_zero_below (q * 1) (q * 1) (omega arith))
bit_or_high zero q (suc r) h = absurd (omega arith)
bit_or_high (suc k) q r h = ground (
  arith,
  or_digit (q * 2 ^ suc k) r,
  double_pow q k,
  pow-suc 2 k,
  bit_or_high k q (r / 2) (omega (arith, pow-suc 2 k)),
)

pub bit_or_low : (k q r : ℕ) → r < 2 ^ k → bit_or r (q * 2 ^ k) ≡ r + q * 2 ^ k
bit_or_low zero q zero h = omega (arith, zero-bit_or (q * 1))
bit_or_low zero q (suc r) h = absurd (omega arith)
bit_or_low (suc k) q r h = ground (
  arith,
  or_digit r (q * 2 ^ suc k),
  double_pow q k,
  pow-suc 2 k,
  bit_or_low k q (r / 2) (omega (arith, pow-suc 2 k)),
)

-- A mask whose `k` low bits are clear sees only what stands above them.
bit_and_high : (k q r m : ℕ) → r < 2 ^ k → bit_and (q * 2 ^ k + r) (m * 2 ^ k) ≡ bit_and q m * 2 ^ k
bit_and_high zero q zero m h =
    let a : q * 1 + 0 ≡ q = omega arith in
    let b : m * 1 ≡ m = omega arith in rw (a, b) (omega arith)
bit_and_high zero q (suc r) m h = absurd (omega arith)
bit_and_high (suc k) q r m h = ground (
  arith,
  and_digit (q * 2 ^ suc k + r) (m * 2 ^ suc k),
  double_pow q k,
  double_pow m k,
  double_pow (bit_and q m) k,
  pow-suc 2 k,
  bit_and_high k q (r / 2) m (omega (arith, pow-suc 2 k)),
)

-- One more low bit in a mask of ones.
and_ones : (q m : ℕ) → bit_and q (2 * m + 1) ≡ bit_and (q / 2) m * 2 + q % 2
and_ones q m =
    let half : (2 * m + 1) / 2 ≡ m = omega arith in
    let low : (2 * m + 1) % 2 ≡ 1 = omega arith in
    rw (and_digit q (2 * m + 1), half, low) (omega arith)

and_nibble : (q : ℕ) → bit_and q 15 ≡ q % 16
and_nibble q = omega (
  arith,
  and_ones q 7,
  and_ones (q / 2) 3,
  and_ones (q / 2 / 2) 1,
  and_ones (q / 2 / 2 / 2) 0,
  and_zero_below (q / 2 / 2 / 2 / 2) (q / 2 / 2 / 2 / 2) (omega arith),
)

and_byte : (q : ℕ) → bit_and q 255 ≡ q % 256
and_byte q = omega (
  arith,
  and_ones q 127,
  and_ones (q / 2) 63,
  and_ones (q / 2 / 2) 31,
  and_ones (q / 2 / 2 / 2) 15,
  and_nibble (q / 2 / 2 / 2 / 2),
)

-- A mask of eight ones picks a byte and leaves it where it is.
pub bit_and_byte : (k v : ℕ) → bit_and v (255 * 2 ^ k) ≡ v / 2 ^ k % 256 * 2 ^ k
bit_and_byte k v =
    ap (λ (t : ℕ). bit_and t (255 * 2 ^ k)) (sym (div-add-mod' v (2 ^ k)))
    ∙ bit_and_high k (v / 2 ^ k) (v % 2 ^ k) 255 (mod-lt v (one-le-pow k 2 (omega arith)))
    ∙ ap (λ (t : ℕ). t * 2 ^ k) (and_byte (v / 2 ^ k))
