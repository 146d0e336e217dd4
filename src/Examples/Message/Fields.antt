-- ===== src/Examples/Message/Fields.antt =====
-- A header field as `Message::parse` of examples/dbus/dbus-message.h reads it, against `DynamicHeader` of
-- dbus/message.cpp.
use firmir.Base.{
  ℕ, ◌≡◌, refl, ◌∙◌, Bool, true, false, ◌||◌, List, same_bytes, if◌then◌else◌, Bool-cases, inl, inr,
}
use firmir.Dbus.Message.Reader
use firmir.Dbus.Message.Reader.{Reader, out_of_bounds, bad_optional_access, out_of_fuel}
use firmir.Dbus.Message.Reader.Safety.{IsValid, IsAhead-IsValid, read_uint8-IsSafe}
use firmir.Dbus.Message.Reader.Strings.{read_signature-Within}
use firmir.Dbus.Message.Header
use firmir.Dbus.Message.Header.{
  DynamicHeader, Field, s_sig, o_sig, g_sig, u_sig, path_field, interface_field, member_field,
  error_name_field, reply_serial_field, destination_field, sender_field, signature_field,
  unix_fds_field, read_value, read_field, read_fields,
}
use firmir.Examples.Reader.{read_u8, read_u32, read_string, read_signature}
use firmir.Examples.Reader.Agrees.{AgreesBy, bind-Agrees}
use firmir.Examples.Reader.Agreement.{
  read_u8-Agrees, read_u32-Agrees, read_string-Agrees, read_signature-Agrees,
}
use firmir.Examples.Message.{
  Message, set_string, set_signature, set_uint32, parse_header_field, parse_field,
}

-- The message `m` with the fields of a dynamic header.
abbrev pub with_fields : DynamicHeader → Message → Message
with_fields h m = record m {
  path = h.path;
  interface = h.interface;
  member = h.member;
  error_name = h.error_name;
  reply_serial = h.reply_serial;
  destination = h.destination;
  sender = h.sender;
  signature = h.signature;
  unix_fds = h.unix_fds;
}

-- The fields of a message, as a header.
abbrev pub header_of : Message → DynamicHeader
header_of m = record {
  path = m.path;
  interface = m.interface;
  member = m.member;
  error_name = m.error_name;
  reply_serial = m.reply_serial;
  destination = m.destination;
  sender = m.sender;
  signature = m.signature;
  unix_fds = m.unix_fds;
  valid = false;
}

with_fields-if :
    (m : Message) (c : Bool) (g h : DynamicHeader)
    → with_fields (if c then g else h) m ≡ (if c then with_fields g m else with_fields h m)
with_fields-if m true g h = refl
with_fields-if m false g h = refl

valid-if :
    (c : Bool) (g h : DynamicHeader) → (if c then g else h).valid ≡ (if c then g.valid else h.valid)
valid-if true g h = refl
valid-if false g h = refl

if_same : (c b : Bool) → (if c then b else b) ≡ b
if_same true b = refl
if_same false b = refl

set_string-with_fields :
    (f : Field) (v : List ℕ) (h : DynamicHeader) (m : Message)
    → set_string f v (with_fields h m) ≡ with_fields (Header.set_string f v h) m
unfolding set_string Header.set_string
set_string-with_fields f v h m = simp (with_fields-if m)

set_string-same_valid :
    (f : Field) (v : List ℕ) (h : DynamicHeader) → (Header.set_string f v h).valid ≡ h.valid
unfolding Header.set_string
set_string-same_valid f v h = simp (valid-if, if_same)

set_signature-with_fields :
    (f : Field) (v : List ℕ) (h : DynamicHeader) (m : Message)
    → set_signature f v (with_fields h m) ≡ with_fields (Header.set_signature f v h) m
unfolding set_signature Header.set_signature
set_signature-with_fields f v h m = simp (with_fields-if m)

set_signature-same_valid :
    (f : Field) (v : List ℕ) (h : DynamicHeader) → (Header.set_signature f v h).valid ≡ h.valid
unfolding Header.set_signature
set_signature-same_valid f v h = simp (valid-if, if_same)

set_uint32-with_fields :
    (f : Field) (n : ℕ) (h : DynamicHeader) (m : Message)
    → set_uint32 f n (with_fields h m) ≡ with_fields (Header.set_uint32 f n h) m
unfolding set_uint32 Header.set_uint32
set_uint32-with_fields f n h m = simp (with_fields-if m)

set_uint32-same_valid :
    (f : Field) (n : ℕ) (h : DynamicHeader) → (Header.set_uint32 f n h).valid ≡ h.valid
unfolding Header.set_uint32
set_uint32-same_valid f n h = simp (valid-if, if_same)

-- A message that has the fields of the header beside what `m` has; the header is not yet valid.
abbrev pub Has : Message → DynamicHeader → Message → Type 0
Has m h m' = (m' ≡ with_fields h m) × (h.valid ≡ false)

parse_header_field-Agrees :
    (m : Message) (f : Field) (sig : List ℕ) (h : DynamicHeader) (r : Reader)
    → IsValid r
    → h.valid ≡ false
    → AgreesBy (Has m) (read_value f sig h r) (parse_header_field sig f (with_fields h m) r)
unfolding read_value parse_header_field
parse_header_field-Agrees m f sig h r v i =
    elim (Bool-cases (same_bytes sig s_sig || same_bytes sig o_sig)) [
      | inl t ↦ rw t (
          bind-Agrees (Has m) Reader.read_string read_string _ _ r (read_string-Agrees r v)
            (λ r' e. tt)
            (λ a r' e. ((set_string-with_fields f a h m, set_string-same_valid f a h ∙ i), refl)))
      | inr f1 ↦ elim (Bool-cases (same_bytes sig g_sig)) [
        | inl t ↦
            rw (f1, t)
              (bind-Agrees (Has m) Reader.read_signature read_signature _ _ r
                (read_signature-Agrees r v) (λ r' e. tt)
                (λ a r' e.
                  ((set_signature-with_fields f a h m, set_signature-same_valid f a h ∙ i), refl)))
        | inr f2 ↦ elim (Bool-cases (same_bytes sig u_sig)) [
          | inl t ↦
              rw (f1, f2, t)
                (bind-Agrees (Has m) Reader.read_uint32 read_u32 _ _ r (read_u32-Agrees r v.placed)
                  (λ r' e. tt)
                  (λ a r' e.
                    ((set_uint32-with_fields f a h m, set_uint32-same_valid f a h ∙ i), refl)))
          | inr f3 ↦ rw (f1, f2, f3) ((refl, i), refl)
        ]
      ]
    ]

pub parse_field-Agrees :
    (m : Message) (h : DynamicHeader) (r : Reader)
    → IsValid r
    → h.valid ≡ false
    → AgreesBy (Has m) (read_field h r) (parse_field (with_fields h m) r)
unfolding read_field parse_field
parse_field-Agrees m h r v i =
    bind-Agrees (Has m) Reader.read_uint8 read_u8 _ _ r (read_u8-Agrees r v.placed) (λ r' e. tt)
      (λ f r' e.
        let w : IsValid r' = IsAhead-IsValid r r' v (rw e at (read_uint8-IsSafe r v)) in
        bind-Agrees (Has m) Reader.read_signature read_signature _ _ r' (read_signature-Agrees r' w)
          (λ r'' e'. tt)
          (λ sig r'' e'.
            parse_header_field-Agrees m f sig h r''
              (IsAhead-IsValid r' r'' w (rw e' at (read_signature-Within r' w))) i))
