-- ===== src/Dbus/Message/Header.antt =====
-- `MessagePrivate::FixedHeader` and `MessagePrivate::DynamicHeader` of dbus/message.cpp.
pub mod Safety
pub mod FixedSafety
pub mod Entries
pub mod Appends
pub mod Replay
pub mod RoundTrip
pub mod FixedRoundTrip
use firmir.Base.{
  ℕ, zero, suc, ◌+◌, ◌*◌, ◌<◌, Bool, true, false, ◌||◌, Option, none, some, List, [], ◌∷◌, length,
  same_bytes, ltb, ◌==◌, if◌then◌else◌,
}
use firmir.Dbus.Wire.{Endianness, little}
use firmir.Dbus.Message.Reader.{
  Reader, Outcome, M, Stop, bad_optional_access, out_of_fuel, done, stopped, pure, ◌>>=◌, ◌>>◌,
  branch, align, read_uint8, read_uint32, read_string, read_signature,
}
use firmir.Dbus.Message.Writer
use firmir.Dbus.Message.Writer.{Writer, write_uint8, write_uint32, write_string, write_signature}

-- `Message::Type`, with `uint8_t` below it: any byte, since the source casts into it unchecked.
abbrev pub MessageType : Type 0
MessageType = ℕ

abbrev pub method_call : MessageType
method_call = 1

abbrev pub method_return : MessageType
method_return = 2

abbrev pub error : MessageType
error = 3

abbrev pub signal : MessageType
signal = 4

pub record FixedHeader : Type 0 where
  pub endian : Endianness
  pub type : MessageType
  pub flags : ℕ
  pub version : ℕ
  pub body_len : ℕ
  pub serial : ℕ
  pub fields_len : ℕ
  pub valid : Bool

abbrev pub default_fixed : FixedHeader
default_fixed = record {
  endian = little;
  type = method_call;
  flags = 0;
  version = 1;
  body_len = 0;
  serial = 0;
  fields_len = 0;
  valid = false;
}

-- `reader.readX().value()`, which throws where the optional is empty.
abbrev pub value : M (Option ℕ) → M ℕ
value m = m >>= λ v r. elim v [ none ↦ stopped bad_optional_access | some n ↦ done n r ]

-- The constructor from a reader. A header that it cannot read keeps `valid = false`.
unfoldable pub read_fixed : M FixedHeader
read_fixed r =
    if ltb (length r.bytes) 16
    then done default_fixed r
    else (do
      endian ← value read_uint8
      type ← value read_uint8
      flags ← value read_uint8
      version ← value read_uint8
      let h = record default_fixed {
        endian = endian;
        type = type;
        flags = flags;
        version = version;
      }
      branch (version == 1)
          (do
            body_len ← value read_uint32
            serial ← value read_uint32
            fields_len ← value read_uint32
            pure (record h {
              body_len = body_len;
              serial = serial;
              fields_len = fields_len;
              valid = true;
            }))
          (pure h))
        r

unfoldable pub serialize_fixed : FixedHeader → Writer → Writer
serialize_fixed h w =
    let w0 = record w { endian = h.endian } in
    let w1 =
      write_uint8 h.version (write_uint8 h.flags (write_uint8 h.type (write_uint8 h.endian w0))) in
    write_uint32 h.fields_len (write_uint32 h.serial (write_uint32 h.body_len w1))

-- `DynamicHeader::Field`, a byte as above.
abbrev pub Field : Type 0
Field = ℕ

abbrev pub path_field : Field
path_field = 1

abbrev pub interface_field : Field
interface_field = 2

abbrev pub member_field : Field
member_field = 3

abbrev pub error_name_field : Field
error_name_field = 4

abbrev pub reply_serial_field : Field
reply_serial_field = 5

abbrev pub destination_field : Field
destination_field = 6

abbrev pub sender_field : Field
sender_field = 7

abbrev pub signature_field : Field
signature_field = 8

abbrev pub unix_fds_field : Field
unix_fds_field = 9

pub record DynamicHeader : Type 0 where
  pub path : Option (List ℕ)
  pub interface : Option (List ℕ)
  pub member : Option (List ℕ)
  pub error_name : Option (List ℕ)
  pub reply_serial : Option ℕ
  pub destination : Option (List ℕ)
  pub sender : Option (List ℕ)
  pub signature : Option (List ℕ)
  pub unix_fds : Option ℕ
  pub valid : Bool

abbrev pub default_dynamic : DynamicHeader
default_dynamic = record {
  path = none;
  interface = none;
  member = none;
  error_name = none;
  reply_serial = none;
  destination = none;
  sender = none;
  signature = none;
  unix_fds = none;
  valid = false;
}

-- The `switch` over the string fields.
unfoldable pub set_string : Field → List ℕ → DynamicHeader → DynamicHeader
set_string f v h =
    if f == path_field
    then record h { path = some v }
    else if f == interface_field
    then record h { interface = some v }
    else if f == member_field
    then record h { member = some v }
    else if f == error_name_field
    then record h { error_name = some v }
    else if f == destination_field
    then record h { destination = some v }
    else if f == sender_field
    then record h { sender = some v }
    else h

-- The `switch` over the number fields.
unfoldable pub set_uint32 : Field → ℕ → DynamicHeader → DynamicHeader
set_uint32 f v h =
    if f == reply_serial_field
    then record h { reply_serial = some v }
    else if f == unix_fds_field
    then record h { unix_fds = some v }
    else h

unfoldable pub set_signature : Field → List ℕ → DynamicHeader → DynamicHeader
set_signature f v h = if f == signature_field then record h { signature = some v } else h

abbrev pub s_sig : List ℕ
s_sig = b's' ∷ []

abbrev pub o_sig : List ℕ
o_sig = b'o' ∷ []

abbrev pub g_sig : List ℕ
g_sig = b'g' ∷ []

abbrev pub u_sig : List ℕ
u_sig = b'u' ∷ []

-- One field behind its code and signature: `none` where the constructor gives up. A field with any
-- other signature is passed over with its value unread.
unfoldable pub read_value : Field → List ℕ → DynamicHeader → M (Option DynamicHeader)
read_value f sig h =
    branch (same_bytes sig s_sig || same_bytes sig o_sig)
      (read_string >>= λ v. pure (elim v [ none ↦ none | some s ↦ some (set_string f s h) ]))
      (branch (same_bytes sig g_sig)
        (read_signature >>= λ v.
          pure (elim v [ none ↦ none | some s ↦ some (set_signature f s h) ]))
        (branch (same_bytes sig u_sig)
          (read_uint32 >>= λ v. pure (elim v [ none ↦ none | some n ↦ some (set_uint32 f n h) ]))
          (pure (some h))))

-- The body of the loop behind its `align` and `break`.
unfoldable pub read_field : DynamicHeader → M (Option DynamicHeader)
read_field h = do
  code ← read_uint8
  λ r. elim code [
    | none ↦ done none r
    | some f ↦
        (read_signature >>= λ v r'. elim v [
          | none ↦ done none r'
          | some sig ↦ read_value f sig h r'
        ])
          r
  ]

-- The loop, with fuel for each round; `valid` is set where it ends by its test or the `break`.
unfoldable pub read_fields : ℕ → ℕ → DynamicHeader → M DynamicHeader
read_fields zero end h r = stopped out_of_fuel
read_fields (suc fuel) end h r =
    let round =
      (do
        _ ← align 8
        λ r'.
            let more =
              (read_field h >>= λ o. elim o [ none ↦ pure h | some h' ↦ read_fields fuel end h' ])
                r' in
            if ltb r'.pos end then more else done (record h { valid = true }) r')
        r in
    if ltb r.pos end then round else done (record h { valid = true }) r

-- The constructor from a reader. Each round takes a byte at least, so there are fewer rounds than the
-- buffer has bytes, plus one.
unfoldable pub read_dynamic : ℕ → M DynamicHeader
read_dynamic end r = read_fields (length r.bytes + 1) end default_dynamic r

-- The λs `writeString` and `writeUInt32`, for a field that is there.
unfoldable pub write_string_field : Field → List ℕ → Option (List ℕ) → Writer → Writer
write_string_field f sig none w = w
write_string_field f sig (some v) w =
    write_string v (write_signature sig (write_uint8 f (Writer.align 8 w)))

unfoldable pub write_uint32_field : Field → Option ℕ → Writer → Writer
write_uint32_field f none w = w
write_uint32_field f (some v) w =
    write_uint32 v (write_signature u_sig (write_uint8 f (Writer.align 8 w)))

unfoldable pub write_signature_field : Option (List ℕ) → Writer → Writer
write_signature_field none w = w
write_signature_field (some v) w =
    write_signature v (write_signature g_sig (write_uint8 signature_field (Writer.align 8 w)))

unfoldable pub serialize_dynamic : DynamicHeader → Writer → Writer
serialize_dynamic h w =
    let w1 = write_string_field path_field o_sig h.path w in
    let w2 = write_string_field interface_field s_sig h.interface w1 in
    let w3 = write_string_field member_field s_sig h.member w2 in
    let w4 = write_string_field error_name_field s_sig h.error_name w3 in
    let w5 = write_string_field destination_field s_sig h.destination w4 in
    let w6 = write_string_field sender_field s_sig h.sender w5 in
    let w7 = write_uint32_field reply_serial_field h.reply_serial w6 in
    let w8 = write_uint32_field unix_fds_field h.unix_fds w7 in write_signature_field h.signature w8
