-- ===== src/Dbus/Message/Header/Entries.antt =====
-- The dynamic header as a list of entries, and the bytes of such a list at a given offset. It
-- models no code; the theorems compare the reading and the writing of headers with it.
use firmir.Base.{
  ap, ℕ, ◌+◌, ◌%◌, ◌≤◌, ◌<◌, ◌≡◌, refl, arith, Option, none, some, List, [], ◌∷◌, ◌++◌,
  append_assoc, length, length-append,
}
use firmir.Dbus.Wire.{Endianness, IsUint32}
use firmir.Dbus.Message.Layout.{
  up, gap, word, text, short_text, length-short_text, length-word, length-text, length-gap,
  gap8_shift, gap4_shift, up_shift,
}
use firmir.Dbus.Message.Header.{
  Field, DynamicHeader, set_string, set_uint32, set_signature, s_sig, o_sig, g_sig, u_sig,
  path_field, interface_field, member_field, error_name_field, reply_serial_field,
  destination_field, sender_field, signature_field, unix_fds_field,
}

pub data Entry : Type 0 where
  object string : Field → List ℕ → Entry
  number : Field → ℕ → Entry
  types : List ℕ → Entry

abbrev pub field_of : Entry → Field
field_of (object f v) = f
field_of (string f v) = f
field_of (number f n) = f
field_of (types v) = signature_field

abbrev pub sig_of : Entry → List ℕ
sig_of (object f v) = o_sig
sig_of (string f v) = s_sig
sig_of (number f n) = u_sig
sig_of (types v) = g_sig

-- Lengths and numbers fit the words that hold them.
abbrev pub Fits : Entry → Type 0
Fits (object f v) = length v < 0xFFFFFFFF
Fits (string f v) = length v < 0xFFFFFFFF
Fits (number f n) = IsUint32 n
Fits (types v) = length v < 256

unfoldable pub value_bytes : Endianness → ℕ → Entry → List ℕ
value_bytes e p (object f v) = gap 4 p ++ text e v
value_bytes e p (string f v) = gap 4 p ++ text e v
value_bytes e p (number f n) = gap 4 p ++ word e n
value_bytes e p (types v) = short_text v

abbrev pub head_bytes : Entry → List ℕ
head_bytes x = field_of x ∷ short_text (sig_of x)

unfoldable pub entry_bytes : Endianness → ℕ → Entry → List ℕ
entry_bytes e p x = gap 8 p ++ (head_bytes x ++ value_bytes e (up 8 p + 4) x)

unfoldable pub encode : Endianness → ℕ → List Entry → List ℕ
encode e p [] = []
encode e p (x ∷ xs) = entry_bytes e p x ++ encode e (p + length (entry_bytes e p x)) xs

-- What an entry means for a header.
unfoldable pub apply : Entry → DynamicHeader → DynamicHeader
apply (object f v) h = set_string f v h
apply (string f v) h = set_string f v h
apply (number f n) h = set_uint32 f n h
apply (types v) h = set_signature signature_field v h

unfoldable pub apply_all : List Entry → DynamicHeader → DynamicHeader
apply_all [] h = h
apply_all (x ∷ xs) h = apply_all xs (apply x h)

abbrev pub optional {ℓ} : {A : Type ℓ} → (A → Entry) → Option A → List Entry
optional x none = []
optional x (some v) = x v ∷ []

-- The entries of a header, in the order in which the source writes them.
abbrev pub entries : DynamicHeader → List Entry
entries h =
    optional (object path_field) h.path
    ++ (optional (string interface_field) h.interface
        ++ (optional (string member_field) h.member
            ++ (optional (string error_name_field) h.error_name
                ++ (optional (string destination_field) h.destination
                    ++ (optional (string sender_field) h.sender
                        ++ (optional (number reply_serial_field) h.reply_serial
                            ++ (optional (number unix_fds_field) h.unix_fds
                                ++ optional types h.signature)))))))

pub length-head_bytes : (x : Entry) → length (head_bytes x) ≡ 4
length-head_bytes (object f v) = omega (arith, length-short_text o_sig)
length-head_bytes (string f v) = omega (arith, length-short_text s_sig)
length-head_bytes (number f n) = omega (arith, length-short_text u_sig)
length-head_bytes (types v) = omega (arith, length-short_text g_sig)

pub encode-append :
    (e p : ℕ) (xs ys : List Entry)
    → encode e p (xs ++ ys) ≡ encode e p xs ++ encode e (p + length (encode e p xs)) ys
unfolding encode
encode-append e p [] ys = ap (λ (q : ℕ). encode e q ys) (omega arith)
encode-append e p (x ∷ xs) ys =
    let here = entry_bytes e p x in
    let there = encode e (p + length here) xs in
    rw (encode-append e (p + length here) xs ys, append_assoc here there)
      (ap (λ (q : ℕ). here ++ (there ++ encode e q ys)) (omega (arith, length-append here there)))

value_bytes_shift :
    (e m p : ℕ) (x : Entry) → m % 8 ≡ 0 → value_bytes e (m + p) x ≡ value_bytes e p x
unfolding value_bytes
value_bytes_shift e m p (object f v) h = ap (λ (g : List ℕ). g ++ text e v) (gap4_shift m p h)
value_bytes_shift e m p (string f v) h = ap (λ (g : List ℕ). g ++ text e v) (gap4_shift m p h)
value_bytes_shift e m p (number f n) h = ap (λ (g : List ℕ). g ++ word e n) (gap4_shift m p h)
value_bytes_shift e m p (types v) h = refl

entry_bytes_shift :
    (e m p : ℕ) (x : Entry) → m % 8 ≡ 0 → entry_bytes e (m + p) x ≡ entry_bytes e p x
unfolding entry_bytes
entry_bytes_shift e m p x h =
    let next : up 8 (m + p) + 4 ≡ m + (up 8 p + 4) = omega (arith, up_shift m p h) in
    rw (gap8_shift m p h, next, value_bytes_shift e m (up 8 p + 4) x h)

-- A header has the same bytes behind a whole number of eight-byte blocks.
pub encode_shift : (e m p : ℕ) (xs : List Entry) → m % 8 ≡ 0 → encode e (m + p) xs ≡ encode e p xs
unfolding encode
encode_shift e m p [] h = refl
encode_shift e m p (x ∷ xs) h =
    let next : m + p + length (entry_bytes e p x) ≡ m + (p + length (entry_bytes e p x)) =
      omega arith in
    rw (entry_bytes_shift e m p x h, next, encode_shift e m (p + length (entry_bytes e p x)) xs h)

-- A bound on the bytes of entries, whatever the padding.
abbrev pub size_of : Entry → ℕ
size_of (object f v) = 24 + length v
size_of (string f v) = 24 + length v
size_of (number f n) = 24
size_of (types v) = 24 + length v

abbrev pub size_of_all : List Entry → ℕ
size_of_all [] = 0
size_of_all (x ∷ xs) = size_of x + size_of_all xs

up-lt : (n p : ℕ) → 0 < n → up n p < p + n
unfolding up
up-lt n p h = ground arith

gap4_le : (p : ℕ) → length (gap 4 p) < 4
gap4_le p = omega (arith, length-gap 4 p (omega arith), up-lt 4 p (omega arith))

value_bytes-le : (e p : ℕ) (x : Entry) → length (value_bytes e p x) + 16 ≤ size_of x
unfolding value_bytes
value_bytes-le e p (object f v) =
    omega (arith, length-append (gap 4 p) (text e v), length-text e v, gap4_le p)
value_bytes-le e p (string f v) =
    omega (arith, length-append (gap 4 p) (text e v), length-text e v, gap4_le p)
value_bytes-le e p (number f n) =
    omega (arith, length-append (gap 4 p) (word e n), length-word e n, gap4_le p)
value_bytes-le e p (types v) = omega (arith, length-short_text v)

entry_bytes-le : (e p : ℕ) (x : Entry) → length (entry_bytes e p x) ≤ size_of x
unfolding entry_bytes
entry_bytes-le e p x =
    let v = value_bytes e (up 8 p + 4) x in
    omega (
      arith,
      length-append (gap 8 p) (head_bytes x ++ v),
      length-append (head_bytes x) v,
      length-head_bytes x,
      length-gap 8 p (omega arith),
      up-lt 8 p (omega arith),
      value_bytes-le e (up 8 p + 4) x,
    )

pub encode-le : (e p : ℕ) (xs : List Entry) → length (encode e p xs) ≤ size_of_all xs
unfolding encode
encode-le e p [] = omega arith
encode-le e p (x ∷ xs) =
    let here = entry_bytes e p x in
    omega (
      arith,
      length-append here (encode e (p + length here) xs),
      entry_bytes-le e p x,
      encode-le e (p + length here) xs,
    )
