-- ===== src/Examples/Message.antt =====
-- The struct `Message` of examples/dbus/dbus-message.h: parsing and serialising a message.
pub mod Fields
pub mod Rounds
pub mod Replay
pub mod Framed
pub mod Appends
pub mod Safety
pub mod RoundTrip
pub mod Interop
use firmir.Base.{
  ℕ, zero, suc, ◌+◌, ◌%◌, ◌^◌, Bool, ◌||◌, not, Option, none, some, List, [], ◌∷◌, length,
  same_bytes, ltb, leb, ◌==◌, if◌then◌else◌,
}
use firmir.Dbus.Wire.{Endianness, little, big, size_mod}
use firmir.Dbus.Message.Reader.{Reader}
use firmir.Dbus.Message.Writer.{Writer}
use firmir.Dbus.Message.Header.{
  Field, s_sig, o_sig, g_sig, u_sig, path_field, interface_field, member_field, error_name_field,
  reply_serial_field, destination_field, sender_field, signature_field, unix_fds_field,
}
use firmir.Examples.Reader.{
  Outcome, M, done, threw, overran, out_of_fuel, pure, throw, ◌>>=◌, ◌>>◌, branch, position, align,
  seek, window, read_u8, read_u32, read_string, read_signature, read_array_bounds, too_short,
  invalid_endianness, unsupported_version, body_exceeds_buffer,
}
use firmir.Examples.Writer
use firmir.Examples.Writer.{
  append, Writing, ◌>=>◌, writes, write_u8, write_u32, write_string, write_signature, write_array,
}

-- An `enum class` holds any byte, since the source casts into it unchecked.
pub record Message : Type 0 where
  pub endian : Endianness
  pub type : ℕ
  pub flags : ℕ
  pub serial : ℕ
  pub path : Option (List ℕ)
  pub interface : Option (List ℕ)
  pub member : Option (List ℕ)
  pub error_name : Option (List ℕ)
  pub reply_serial : Option ℕ
  pub destination : Option (List ℕ)
  pub sender : Option (List ℕ)
  pub signature : Option (List ℕ)
  pub unix_fds : Option ℕ
  pub body : List ℕ

abbrev pub new_message : Message
new_message = record {
  endian = little;
  type = 1;
  flags = 0;
  serial = 0;
  path = none;
  interface = none;
  member = none;
  error_name = none;
  reply_serial = none;
  destination = none;
  sender = none;
  signature = none;
  unix_fds = none;
  body = [];
}

-- The three `switch`es and tests over the field's code.
unfoldable pub set_string : Field → List ℕ → Message → Message
set_string f v m =
    if f == path_field
    then record m { path = some v }
    else if f == interface_field
    then record m { interface = some v }
    else if f == member_field
    then record m { member = some v }
    else if f == error_name_field
    then record m { error_name = some v }
    else if f == destination_field
    then record m { destination = some v }
    else if f == sender_field
    then record m { sender = some v }
    else m

unfoldable pub set_signature : Field → List ℕ → Message → Message
set_signature f v m = if f == signature_field then record m { signature = some v } else m

unfoldable pub set_uint32 : Field → ℕ → Message → Message
set_uint32 f v m =
    if f == reply_serial_field
    then record m { reply_serial = some v }
    else if f == unix_fds_field
    then record m { unix_fds = some v }
    else m

unfoldable pub parse_header_field : List ℕ → Field → Message → M Message
parse_header_field sig f m =
    branch (same_bytes sig s_sig || same_bytes sig o_sig)
      (read_string >>= λ v. pure (set_string f v m))
      (branch (same_bytes sig g_sig) (read_signature >>= λ v. pure (set_signature f v m))
        (branch (same_bytes sig u_sig) (read_u32 >>= λ v. pure (set_uint32 f v m)) (pure m)))

-- The body of the loop behind its `align` and `break`.
unfoldable pub parse_field : Message → M Message
parse_field m = do code ← read_u8; sig ← read_signature; parse_header_field sig code m

-- The loop over the fields, on fuel.
unfoldable pub parse_fields : ℕ → ℕ → Message → M Message
parse_fields zero end m r = out_of_fuel
parse_fields (suc fuel) end m r =
    let round =
      (align 8 >> λ r'.
      let more = (parse_field m >>= parse_fields fuel end) r' in
      if ltb r'.pos end then more else done m r')
        r in
    if ltb r.pos end then round else done m r

-- Behind the fields.
unfoldable pub parse_body : ℕ → Message → M Message
parse_body body_len m = do
  align 8
  start ← position
  λ r.
      if ltb (length r.bytes) ((start + body_len) % size_mod)
      then threw body_exceeds_buffer
      else (window body_len >>= λ body. pure (record m { body = body })) r

-- Behind the first four bytes. Each round of the loop takes a byte at least.
unfoldable pub parse_rest : Message → M Message
parse_rest m = do
  seek 4
  body_len ← read_u32
  serial ← read_u32
  bounds ← read_array_bounds 8
  seek bounds.0
  m' ← λ r. parse_fields (length r.bytes + 1) bounds.1 (record m { serial = serial }) r
  parse_body body_len m'

abbrev pub parse_head : List ℕ → Outcome Message
parse_head (e ∷ t ∷ f ∷ v ∷ rest) =
    if not ((e == little) || (e == big))
    then threw invalid_endianness
    else if not (v == 1)
    then threw unsupported_version
    else parse_rest (record new_message { endian = e; type = t; flags = f })
        (record { bytes = e ∷ t ∷ f ∷ v ∷ rest; pos = 0; endian = e })
parse_head _ = overran

unfoldable pub parse : List ℕ → Outcome Message
parse bytes = if ltb (length bytes) 16 then threw too_short else parse_head bytes

-- A field that is there, and none for one that is not.
abbrev pub if_set {ℓ} : {A : Type ℓ} → Option A → (A → Writing) → Writing
if_set none f w = some w
if_set (some v) f w = f v w

-- `write_string_field` and `write_object_path_field`, which differ in the signature.
unfoldable pub write_text_field : List ℕ → Field → List ℕ → Writing
write_text_field sig f v =
    writes (λ w. write_u8 f (Writer.align 8 w)) >=> write_signature sig >=> writes (write_string v)

unfoldable pub write_string_field : Field → List ℕ → Writing
unfolding write_text_field
write_string_field = write_text_field s_sig

unfoldable pub write_object_path_field : Field → List ℕ → Writing
unfolding write_text_field
write_object_path_field = write_text_field o_sig

unfoldable pub write_signature_field : Field → List ℕ → Writing
write_signature_field f v =
    writes (λ w. write_u8 f (Writer.align 8 w)) >=> write_signature g_sig >=> write_signature v

unfoldable pub write_uint32_field : Field → ℕ → Writing
write_uint32_field f v =
    writes (λ w. write_u8 f (Writer.align 8 w)) >=> write_signature u_sig >=> writes (write_u32 v)

unfoldable pub write_fields : Message → Writing
write_fields m =
    if_set m.path (write_object_path_field path_field)
    >=> if_set m.interface (write_string_field interface_field)
    >=> if_set m.member (write_string_field member_field)
    >=> if_set m.error_name (write_string_field error_name_field)
    >=> if_set m.reply_serial (write_uint32_field reply_serial_field)
    >=> if_set m.destination (write_string_field destination_field)
    >=> if_set m.sender (write_string_field sender_field)
    >=> if_set m.signature (write_signature_field signature_field)
    >=> if_set m.unix_fds (write_uint32_field unix_fds_field)

abbrev pub write_start : Message → Writer
write_start m =
    let w : Writer = record { bytes = []; endian = m.endian } in
    let w4 = write_u8 1 (write_u8 m.flags (write_u8 m.type (write_u8 m.endian w))) in
    write_u32 m.serial (write_u32 (length m.body % 2 ^ 32) w4)

abbrev pub finish : Message → Option Writer → Option (List ℕ)
finish m none = none
finish m (some w) = some (append (Writer.align 8 w) m.body).bytes

-- `none` where a signature is too long.
unfoldable pub serialize : Message → Option (List ℕ)
serialize m = finish m (write_array 8 (write_fields m) (write_start m))
