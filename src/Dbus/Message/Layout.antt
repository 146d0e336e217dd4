-- ===== src/Dbus/Message/Layout.antt =====
-- The wire format in plain terms: what the codec writes at a given offset. It models no code; the
-- theorems compare the code with it.
use firmir.Base.{
  ap, length-append, length-replicate, ℕ, ◌+◌, ◌-◌, ◌%◌, ◌≤◌, ◌<◌, ◌≡◌, arith, List, [], ◌∷◌, ◌++◌,
  length, replicate, ◌==◌, if◌then◌else◌,
}
use firmir.Dbus.Wire.{Endianness, store, bswap32, in_order}
use firmir.Dbus.Wire.Swap.{length-store}

-- The next multiple of `n`.
unfoldable pub up : ℕ → ℕ → ℕ
up n p = if p % n == 0 then p else p + n - p % n

-- The zero bytes up to it.
unfoldable pub gap : ℕ → ℕ → List ℕ
unfolding up
gap n p = replicate (up n p - p) 0

-- A 32-bit number in the given byte order.
unfoldable pub word : Endianness → ℕ → List ℕ
word e v = store 4 (in_order bswap32 e v)

-- A string with its length before it and a zero byte behind it; the length of a signature has one
-- byte.
unfoldable pub text : Endianness → List ℕ → List ℕ
text e s = word e (length s) ++ (s ++ 0 ∷ [])

unfoldable pub short_text : List ℕ → List ℕ
short_text s = length s ∷ (s ++ 0 ∷ [])

pub le-up : (n p : ℕ) → 0 < n → p ≤ up n p
unfolding up
le-up n p h = ground arith

pub length-gap : (n p : ℕ) → 0 < n → p + length (gap n p) ≡ up n p
unfolding gap
length-gap n p h = omega (arith, length-replicate {A = ℕ} (up n p - p) 0, le-up n p h)

pub length-word : (e v : ℕ) → length (word e v) ≡ 4
unfolding word
length-word e v = length-store 4 (in_order bswap32 e v)

pub length-text : (e : ℕ) (s : List ℕ) → length (text e s) ≡ length s + 5
unfolding text
length-text e s = omega (
  arith,
  length-append (word e (length s)) (s ++ 0 ∷ []),
  length-append s (0 ∷ []),
  length-word e (length s),
)

pub length-short_text : (s : List ℕ) → length (short_text s) ≡ length s + 2
unfolding short_text
length-short_text s = omega (arith, length-append s (0 ∷ []))

-- What is aligned in a buffer is aligned behind a whole number of eight-byte blocks.
pub up_shift : (m p : ℕ) → m % 8 ≡ 0 → (up 8 (m + p) ≡ m + up 8 p) × (up 4 (m + p) ≡ m + up 4 p)
unfolding up
up_shift m p h = ground arith

pub gap8_shift : (m p : ℕ) → m % 8 ≡ 0 → gap 8 (m + p) ≡ gap 8 p
unfolding gap
gap8_shift m p h =
    ap (λ (k : ℕ). replicate k 0) (omega (arith, up_shift m p h, le-up 8 p (omega arith)))

pub gap4_shift : (m p : ℕ) → m % 8 ≡ 0 → gap 4 (m + p) ≡ gap 4 p
unfolding gap
gap4_shift m p h =
    ap (λ (k : ℕ). replicate k 0) (omega (arith, up_shift m p h, le-up 4 p (omega arith)))
