-- ===== src/Base/Decimal.antt =====
-- Decimal numbers as the standard library prints and reads them: `std::to_string`, `<<` on an
-- integer, and `std::stoll`.
use Prim.Native.Nat.{ℕ, zero, suc, ◌+◌, ◌-◌, ◌*◌, ◌/◌, ◌%◌, ◌^◌, ◌<◌}
use mathlib.Core.Path.{◌≡◌, refl, sym, subst, ap, ◌∙◌}
use mathlib.Core.Bool.{Bool, true, ◌&&◌, ◌||◌}
use mathlib.Core.Option.{Option, none, some}
use mathlib.Core.List.{List, [], ◌∷◌}
use native.Mathlib.Omega.{arith}
use firmir.Base.Tests.{leb, ltb, ◌==◌, if◌then◌else◌, Bool-cases, lt→ltb}
use mathlib.Core.Logic.{inl, inr}
use firmir.Base.Int.{ℤ, pos, negsuc}

-- Lowest digit last, before `acc`. A number has fewer digits than its value plus one.
unfoldable pub decimal_loop : ℕ → ℕ → List ℕ → List ℕ
decimal_loop zero n acc = acc
decimal_loop (suc fuel) n acc =
    let more = decimal_loop fuel (n / 10) ((b'0' + n % 10) ∷ acc) in
    if n / 10 == 0 then (b'0' + n % 10) ∷ acc else more

unfoldable pub decimal : ℕ → List ℕ
decimal n = decimal_loop (n + 1) n []

unfoldable pub decimal_int : ℤ → List ℕ
unfolding decimal
decimal_int (pos n) = decimal n
decimal_int (negsuc n) = b'-' ∷ decimal (n + 1)

unfoldable pub is_digit : ℕ → Bool
is_digit c = leb b'0' c && leb c b'9'

-- The value of the digits at the front, `none` where there is none.
unfoldable pub digits_value : ℕ → List ℕ → ℕ
digits_value acc [] = acc
digits_value acc (c ∷ cs) = if is_digit c then digits_value (acc * 10 + (c - b'0')) cs else acc

unfoldable pub unsigned : List ℕ → Option ℕ
unsigned [] = none
unsigned (c ∷ cs) = if is_digit c then some (digits_value 0 (c ∷ cs)) else none

-- The white space of the "C" locale.
unfoldable pub is_space : ℕ → Bool
is_space c = (c == b' ') || (leb 9 c && leb c 13)

unfoldable pub skip_space : List ℕ → List ℕ
skip_space [] = []
skip_space (c ∷ cs) = if is_space c then skip_space cs else c ∷ cs

-- A value of type `long long`, or an exception where it has none or is out of range.
unfoldable pub positive : Option ℕ → Option ℤ
positive none = none
positive (some n) = if ltb n (2 ^ 63) then some (pos n) else none

unfoldable pub negative : Option ℕ → Option ℤ
negative none = none
negative (some zero) = some (pos 0)
negative (some (suc n)) = if ltb n (2 ^ 63) then some (negsuc n) else none

unfoldable pub signed : List ℕ → Option ℤ
signed [] = none
signed (c ∷ cs) =
    if c == b'-'
    then negative (unsigned cs)
    else if c == b'+'
    then positive (unsigned cs)
    else positive (unsigned (c ∷ cs))

-- `std::stoll` with base ten; what stands behind the number is passed over.
unfoldable pub stoll : List ℕ → Option ℤ
stoll cs = signed (skip_space cs)

digits_value-decimal_loop :
    (fuel n : ℕ) (cs : List ℕ)
    → n < fuel
    → digits_value 0 (decimal_loop fuel n cs) ≡ digits_value n cs
unfolding decimal_loop digits_value is_digit
digits_value-decimal_loop zero n cs h = absurd (omega arith)
digits_value-decimal_loop (suc fuel) n cs h =
    ground (arith, digits_value-decimal_loop fuel (n / 10) ((b'0' + n % 10) ∷ cs))

pub digits_value-decimal : (n : ℕ) → digits_value 0 (decimal n) ≡ n
unfolding decimal
digits_value-decimal n =
    digits_value-decimal_loop (n + 1) n [] (omega arith) ∙ unfold digits_value in refl

-- The text begins with a digit.
record Numeral (cs : List ℕ) : Type 0 where
  first : ℕ
  others : List ℕ
  shape : cs ≡ first ∷ others
  digit : is_digit first ≡ true

decimal_loop-Numeral : (fuel n : ℕ) (cs : List ℕ) → n < fuel → Numeral (decimal_loop fuel n cs)
unfolding decimal_loop
decimal_loop-Numeral zero n cs h = absurd (omega arith)
decimal_loop-Numeral (suc fuel) n cs h = elim (Bool-cases (n / 10 == 0)) [
  | inl t ↦ rw t (record {
    first = b'0' + n % 10;
    others = cs;
    shape = refl;
    digit = unfold is_digit in ground arith;
  })
  | inr f ↦ rw f (decimal_loop-Numeral fuel (n / 10) ((b'0' + n % 10) ∷ cs) (ground arith))
]

unsigned-Numeral : {cs : List ℕ} → Numeral cs → unsigned cs ≡ some (digits_value 0 cs)
unfolding unsigned
unsigned-Numeral t = subst (λ cs. unsigned cs ≡ some (digits_value 0 cs)) (sym t.shape) (rw t.digit)

stoll_digit :
    (c : ℕ) (cs : List ℕ) → is_digit c ≡ true → stoll (c ∷ cs) ≡ positive (unsigned (c ∷ cs))
unfolding stoll skip_space is_space signed is_digit
stoll_digit c cs h = ground arith

stoll-Numeral : {cs : List ℕ} → Numeral cs → stoll cs ≡ positive (unsigned cs)
stoll-Numeral t =
    subst (λ cs. stoll cs ≡ positive (unsigned cs)) (sym t.shape)
      (stoll_digit t.first t.others t.digit)

decimal-Numeral : (n : ℕ) → Numeral (decimal n)
unfolding decimal
decimal-Numeral n = decimal_loop-Numeral (n + 1) n [] (omega arith)

unsigned-decimal : (n : ℕ) → unsigned (decimal n) ≡ some n
unsigned-decimal n = unsigned-Numeral (decimal-Numeral n) ∙ ap some (digits_value-decimal n)

abbrev pub IsInt64 : ℤ → Type 0
IsInt64 (pos n) = n < 2 ^ 63
IsInt64 (negsuc n) = n < 2 ^ 63

-- Reading back a printed number.
pub stoll-decimal_int : (i : ℤ) → IsInt64 i → stoll (decimal_int i) ≡ some i
unfolding decimal_int positive stoll skip_space is_space signed negative
stoll-decimal_int (pos n) h =
    stoll-Numeral (decimal-Numeral n) ∙ rw (unsigned-decimal n, lt→ltb n (2 ^ 63) h)
stoll-decimal_int (negsuc n) h =
    let next : n + 1 ≡ suc n = omega arith in
    rw (unsigned-decimal (n + 1), next, lt→ltb n (2 ^ 63) h)
