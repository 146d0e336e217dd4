-- ===== src/Core/Types/Conversions.antt =====
-- core/firmir-types.cpp: the conversions of a variant, and the lookup with a default.
use firmir.Base.{◌≡◌, true, false, none, some, Bool-cases, inl, inr, ◌⊎◌, Option-cases}
use firmir.Base.Int.{ℤ}
use firmir.Base.Decimal.{IsInt64, stoll-decimal_int}
use firmir.Core.Types.{
  Text, Variant, VariantMap, of_int, of_string, to_int, value_to_int, is_null, find, get,
  print_value, int,
}

-- The text that `<<` prints for a 64-bit integer converts back to the integer, whatever the default
-- is, and the conversion is valid.
pub to_int-print :
    (i d : ℤ) → IsInt64 i → to_int (of_string (print_value int (of_int i))) d ≡ (i, true)
unfolding to_int value_to_int print_value
to_int-print i d h = rw (stoll-decimal_int i h)

-- The lookup with a default gives either what is stored under the key, which is no null variant, or
-- the default; and the default it is where the key is absent or a null variant is stored.
pub get_lem :
    (m : VariantMap) (k : Text) (d : Variant)
    → (((v : Variant) × (find k m ≡ some v) × (is_null v ≡ false) × (get m k d ≡ v)))
      ⊎ (((find k m ≡ none) ⊎ ((v : Variant) × (find k m ≡ some v) × (is_null v ≡ true)))
          × (get m k d ≡ d))
unfolding get
get_lem m k d = elim (Option-cases (find k m)) [
  | inl e ↦ inr (inl e, rw e)
  | inr (v, e) ↦ elim (Bool-cases (is_null v)) [
    | inl t ↦ inr (inr (v, e, t), rw (e, t))
    | inr f ↦ inl (v, e, f, rw (e, f))
  ]
]
