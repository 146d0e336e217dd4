-- ===== src/Dbus/Connection/Opening/Address.antt =====
-- dbus/connection.cpp: the hexadecimal form of a user's number, and the path in an address.
use firmir.Base.{
  ap, ℕ, zero, suc, ◌+◌, ◌-◌, ◌*◌, ◌/◌, ◌%◌, ◌<◌, ◌≡◌, ◌≢◌, refl, arith, none, some, List, [], ◌∷◌,
  ◌++◌, codes, length, All, take-append, ltb, ◌==◌, if◌then◌else◌, Bool-cases, inl, inr,
}
use firmir.Base.Decimal.{decimal, decimal_loop, digits_value, digits_value-decimal}
use firmir.Dbus.Connection.Opening.{BusType, hex_digit, hex_of, uid_to_hex, find_text, get_path}

-- The value of a hexadecimal digit in lower case.
abbrev pub digit_value : ℕ → ℕ
digit_value c = if ltb c 97 then c - 48 else c - 87

-- The bytes that a text of hexadecimal digits stands for.
unfoldable pub bytes_of_hex : List ℕ → List ℕ
bytes_of_hex (a ∷ b ∷ cs) = (16 * digit_value a + digit_value b) ∷ bytes_of_hex cs
bytes_of_hex _ = []

hex_digit_lem : (d : ℕ) → d < 16 → digit_value (hex_digit d) ≡ d
hex_digit_lem d h = ground arith

bytes_of_hex-hex_of : (cs : List ℕ) → All (λ c. c < 256) cs → bytes_of_hex (hex_of cs) ≡ cs
unfolding bytes_of_hex hex_of
bytes_of_hex-hex_of [] h = refl
bytes_of_hex-hex_of (c ∷ cs) (b, h) =
    rw
      (
        hex_digit_lem (c / 16) (omega arith),
        hex_digit_lem (c % 16) (omega arith),
        bytes_of_hex-hex_of cs h,
      )
      (ap (λ (x : ℕ). x ∷ cs) (omega arith))

find_comma :
    (p rest : List ℕ)
    → All (λ c. c ≢ 44) p
    → find_text (codes ",") (p ++ 44 ∷ rest) ≡ some (length p)
unfolding find_text
find_comma [] rest h = refl
find_comma (c ∷ p) rest (n, h) = ground (arith, find_comma p rest h)

find_comma_none : (p : List ℕ) → All (λ c. c ≢ 44) p → find_text (codes ",") p ≡ none
unfolding find_text
find_comma_none [] h = refl
find_comma_none (c ∷ p) (n, h) = ground (arith, find_comma_none p h)

-- From an address `unix:path=P` or `unix:path=P,…`, where P has no comma, the path is P.
pub get_path_lem :
    (type : BusType) (uid : ℕ) (p rest : List ℕ)
    → All (λ c. c ≢ 44) p
    → (get_path type uid (some (codes "unix:path=" ++ p)) ≡ p)
      × (get_path type uid (some (codes "unix:path=" ++ (p ++ 44 ∷ rest))) ≡ p)
unfolding get_path find_text
get_path_lem type uid p rest h =
    (rw (find_comma_none p h), rw (find_comma p rest h) (take-append p (44 ∷ rest)))

decimal_loop-All :
    (fuel n : ℕ) (cs : List ℕ) → All (λ c. c < 256) cs → All (λ c. c < 256) (decimal_loop fuel n cs)
unfolding decimal_loop
decimal_loop-All zero n cs h = h
decimal_loop-All (suc fuel) n cs h =
    let now : All (λ c. c < 256) ((b'0' + n % 10) ∷ cs) = (omega arith, h) in
    elim (Bool-cases (n / 10 == 0)) [
      | inl t ↦ rw t now
      | inr f ↦ rw f (decimal_loop-All fuel (n / 10) ((b'0' + n % 10) ∷ cs) now)
    ]

-- The argument of `AUTH EXTERNAL` decodes, by two hexadecimal digits to a byte, to the decimal form of
-- the user's number, and this reads back as that number.
pub digits_value-uid_to_hex :
    (uid : ℕ)
    → (bytes_of_hex (uid_to_hex uid) ≡ decimal uid)
      × (digits_value 0 (bytes_of_hex (uid_to_hex uid)) ≡ uid)
unfolding uid_to_hex decimal
digits_value-uid_to_hex uid =
    let back = bytes_of_hex-hex_of (decimal uid) (decimal_loop-All (uid + 1) uid [] tt) in
    (back, rw back (digits_value-decimal uid))
