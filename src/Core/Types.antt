-- ===== src/Core/Types.antt =====
-- core/firmir-types.cpp and core/include/firmir/types.h: variants, maps of variants, their printed
-- forms.
pub mod Conversions
use firmir.Base.{
  ℕ, zero, suc, ◌+◌, Bool, true, false, ◌&&◌, not, Option, none, some, List, [], ◌∷◌, ◌++◌, length,
  same_bytes, codes, ◌==◌, if◌then◌else◌,
}
use firmir.Base.Int.{ℤ, pos}
use firmir.Base.Decimal.{stoll, decimal_int}

pub data DataType : Type 0 where
  null bool int string string_list : DataType

abbrev pub Text : Type 0
Text = List ℕ

unfoldable pub data_type_to_string : DataType → Text
data_type_to_string null = codes "Null"
data_type_to_string bool = codes "Bool"
data_type_to_string int = codes "Int"
data_type_to_string string = codes "String"
data_type_to_string string_list = codes "StringList"

-- `std::variant<bool, int64_t, std::string, StringListT>`
pub data Value : Type 0 where
  a_bool : Bool → Value
  an_int : ℤ → Value
  a_string : Text → Value
  a_list : List Text → Value

pub record Variant : Type 0 where
  pub m_data_type : DataType
  pub m_value : Value

-- The default constructor: the value is that of the first alternative, `false`.
abbrev pub null_variant : Variant
null_variant = record { m_data_type = null; m_value = a_bool false }

abbrev pub of_bool : Bool → Variant
of_bool b = record { m_data_type = bool; m_value = a_bool b }

abbrev pub of_int : ℤ → Variant
of_int i = record { m_data_type = int; m_value = an_int i }

abbrev pub of_string : Text → Variant
of_string s = record { m_data_type = string; m_value = a_string s }

abbrev pub of_list : List Text → Variant
of_list l = record { m_data_type = string_list; m_value = a_list l }

unfoldable pub is_null_type : DataType → Bool
is_null_type null = true
is_null_type _ = false

unfoldable pub is_null : Variant → Bool
unfolding is_null_type
is_null v = is_null_type v.m_data_type

-- The conversions return the value and what they write to `*valid`.
abbrev string_to_bool : Text → Bool → Bool × Bool
string_to_bool s d =
    if same_bytes s (codes "true")
    then (true, true)
    else if same_bytes s (codes "false")
    then (false, true)
    else (d, false)

unfoldable pub value_to_bool : Value → Bool → Bool × Bool
value_to_bool (a_bool b) d = (b, true)
value_to_bool (a_string s) d = string_to_bool s d
value_to_bool _ d = (d, false)

unfoldable pub to_bool : Variant → Bool → Bool × Bool
unfolding value_to_bool
to_bool v d = value_to_bool v.m_value d

abbrev caught : Option ℤ → ℤ → ℤ × Bool
caught none d = (d, false)
caught (some i) d = (i, true)

unfoldable pub value_to_int : Value → ℤ → ℤ × Bool
value_to_int (an_int i) d = (i, true)
value_to_int (a_string s) d = caught (stoll s) d
value_to_int _ d = (d, false)

unfoldable pub to_int : Variant → ℤ → ℤ × Bool
unfolding value_to_int
to_int v d = value_to_int v.m_value d

unfoldable pub value_to_string : Value → Text → Text × Bool
value_to_string (a_string s) d = (s, true)
value_to_string (a_list (s ∷ [])) d = (s, true)
value_to_string _ d = (d, false)

unfoldable pub to_string : Variant → Text → Text × Bool
unfolding value_to_string
to_string v d = value_to_string v.m_value d

unfoldable pub value_to_list : Value → List Text → List Text × Bool
value_to_list (a_list l) d = (l, true)
value_to_list _ d = (d, false)

unfoldable pub to_string_list : Variant → List Text → List Text × Bool
unfolding value_to_list
to_string_list v d = value_to_list v.m_value d

-- `std::unordered_map<std::string, Variant>`, in the order in which it is run through.
abbrev pub VariantMap : Type 0
VariantMap = List (Text × Variant)

-- `contains` and `operator[]`.
unfoldable pub find : Text → VariantMap → Option Variant
find k [] = none
find k ((j, v) ∷ m) = if same_bytes j k then some v else find k m

abbrev non_null_or : Option Variant → Variant → Variant
non_null_or none d = d
non_null_or (some v) d = if is_null v then d else v

unfoldable pub get : VariantMap → Text → Variant → Variant
unfolding find is_null
get m k d = non_null_or (find k m) d

abbrev quote : Text
quote = b'"' ∷ []

-- The loop over a list: its index `i`, and the size `n` of the list.
unfoldable pub print_strings : ℕ → ℕ → List Text → Text
print_strings n i [] = []
print_strings n i (s ∷ l) =
    (quote ++ (s ++ quote))
    ++ ((if (i + 1) == n then [] else codes ", ") ++ print_strings n (i + 1) l)

unfoldable pub print_list : List Text → Text
unfolding print_strings
print_list l = codes "StringList(" ++ (print_strings (length l) 0 l ++ codes ")")

unfoldable pub print_bool : Bool → Text
print_bool b = if b then codes "1" else codes "0"

unfoldable pub print_value : DataType → Variant → Text
unfolding to_bool to_int to_string to_string_list print_bool print_list decimal_int
print_value null v = codes "Null"
print_value bool v = print_bool (to_bool v false).0
print_value int v = decimal_int (to_int v (pos 0)).0
print_value string v = (to_string v []).0
print_value string_list v = print_list (to_string_list v []).0

unfoldable pub print_variant : Variant → Text
unfolding print_value data_type_to_string
print_variant v =
    codes "Variant(dataType="
    ++ (data_type_to_string v.m_data_type
        ++ (codes ", value=" ++ (print_value v.m_data_type v ++ codes ")")))

unfoldable pub print_entries : ℕ → ℕ → VariantMap → Text
unfolding print_variant
print_entries n i [] = []
print_entries n i ((k, v) ∷ m) =
    (codes "{\"" ++ (k ++ (codes "\": " ++ (print_variant v ++ codes "}"))))
    ++ ((if (i + 1) == n then [] else codes ", ") ++ print_entries n (i + 1) m)

unfoldable pub print_map : VariantMap → Text
unfolding print_entries
print_map m = codes "VariantMap(" ++ (print_entries (length m) 0 m ++ codes ")")
