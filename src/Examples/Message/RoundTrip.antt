-- ===== src/Examples/Message/RoundTrip.antt =====
-- Messages of examples/dbus/dbus-message.h, serialised and parsed.
use firmir.Base.{
  ap, ℕ, ◌+◌, ◌-◌, ◌%◌, ◌^◌, ◌≡◌, refl, sym, ◌∙◌, arith, ◌⊎◌, inr, some, List, [], ◌∷◌, ◌++◌,
  append_assoc, length, length-append, drop, take-append, drop-append, All, All-append, false,
}
use firmir.Dbus.Wire.{Endianness, IsUint32, little, big, store, in_order, bswap32}
use firmir.Dbus.Message.Layout.{gap, word, length-word}
use firmir.Dbus.Message.Reader.Safety.{IsValid}
use firmir.Dbus.Message.Reader.Replay.{at}
use firmir.Dbus.Message.Header.{
  FixedHeader, default_dynamic, path_field, interface_field, member_field, error_name_field,
  reply_serial_field, destination_field, sender_field,
}
use firmir.Dbus.Message.Header.Entries.{
  object, string, number, types, Fits, encode, apply_all, optional,
}
use firmir.Dbus.Message.Header.Appends.{IsWritable}
use firmir.Dbus.Message.Header.RoundTrip.{
  apply_all-append, apply_path, apply_interface, apply_member, apply_error_name, apply_destination,
  apply_sender, apply_reply_serial, apply_unix_fds, apply_types,
}
use firmir.Dbus.Message.Header.FixedRoundTrip.{fixed_bytes}
use firmir.Examples.Reader.{done}
use firmir.Examples.Writer
use firmir.Examples.Writer.{append, write_u8, write_u32, write_uint, write_array, patch}
use firmir.Examples.Writer.Appends.{align_lem}
use firmir.Examples.Message.{Message, write_fields, write_start, serialize, parse}
use firmir.Examples.Message.Fields.{header_of}
use firmir.Examples.Message.Appends.{entries, write_fields_lem}
use firmir.Examples.Message.Replay.{frame, IsFramed, framed}
use firmir.Examples.Message.Framed.{parse-frame}

-- The entries of a message, applied to the empty header, give its fields.
apply_all-entries : (m : Message) → apply_all (entries m) default_dynamic ≡ header_of m
apply_all-entries m =
    let h0 = default_dynamic in
    let h1 = record h0 { path = m.path } in
    let h2 = record h1 { interface = m.interface } in
    let h3 = record h2 { member = m.member } in
    let h4 = record h3 { error_name = m.error_name } in
    let h5 = record h4 { reply_serial = m.reply_serial } in
    let h6 = record h5 { destination = m.destination } in
    let h7 = record h6 { sender = m.sender } in
    let h8 = record h7 { signature = m.signature } in
    rw (
      apply_all-append (optional (object path_field) m.path) _ h0,
      apply_path h0 m.path refl,
      apply_all-append (optional (string interface_field) m.interface) _ h1,
      apply_interface h1 m.interface refl,
      apply_all-append (optional (string member_field) m.member) _ h2,
      apply_member h2 m.member refl,
      apply_all-append (optional (string error_name_field) m.error_name) _ h3,
      apply_error_name h3 m.error_name refl,
      apply_all-append (optional (number reply_serial_field) m.reply_serial) _ h4,
      apply_reply_serial h4 m.reply_serial refl,
      apply_all-append (optional (string destination_field) m.destination) _ h5,
      apply_destination h5 m.destination refl,
      apply_all-append (optional (string sender_field) m.sender) _ h6,
      apply_sender h6 m.sender refl,
      apply_all-append (optional types m.signature) _ h7,
      apply_types h7 m.signature refl,
      apply_unix_fds h8 m.unix_fds refl,
    )

entries-Fits : (m : Message) → IsWritable (header_of m) → All Fits (entries m)
entries-Fits m k = All-append Fits (optional (object path_field) m.path) _ k.path (
    All-append Fits (optional (string interface_field) m.interface) _ k.interface (
      All-append Fits (optional (string member_field) m.member) _ k.member (
        All-append Fits (optional (string error_name_field) m.error_name) _ k.error_name (
          All-append Fits (optional (number reply_serial_field) m.reply_serial) _ k.reply_serial (
            All-append Fits (optional (string destination_field) m.destination) _ k.destination (
              All-append Fits (optional (string sender_field) m.sender) _ k.sender
                (All-append Fits (optional types m.signature) _ k.signature k.unix_fds)))))))

-- What is patched is what stood behind the front.
patch_lem :
    (front old new back : List ℕ) (e : Endianness) (n : ℕ)
    → n ≡ length front
    → length old ≡ length new
    → patch n new (record { bytes = front ++ (old ++ back); endian = e })
      ≡ record { bytes = front ++ (new ++ back); endian = e }
unfolding patch
patch_lem front old new back e n p q =
    let skip : drop (length front + length new) (front ++ (old ++ back)) ≡ back =
      rw (← append_assoc front old back, ← q, ← length-append front old)
        (drop-append (front ++ old) back) in
    rw (p, take-append front (old ++ back), skip)

-- The length, patched over the zero that stood there.
patch_word_lem :
    (front back : List ℕ) (e v : ℕ)
    → patch
        (length front)
        (store 4 (in_order bswap32 e v))
        (record { bytes = front ++ (word e 0 ++ back); endian = e })
      ≡ record { bytes = front ++ (word e v ++ back); endian = e }
unfolding word
patch_word_lem front back e v =
    patch_lem front (word e 0) (word e v) back e (length front) refl
      (length-word e 0 ∙ sym (length-word e v))

-- The bytes before the array of fields.
abbrev start_bytes : Message → List ℕ
start_bytes m =
    m.endian
    ∷ m.type
    ∷ m.flags
    ∷ 1
    ∷ (word m.endian (length m.body % 2 ^ 32) ++ word m.endian m.serial)

-- The writer where the fields begin: their length, still zero, is the last word.
opened_lem :
    (m : Message)
    → Writer.align 8 (write_u32 0 (write_start m))
      ≡ record { bytes = start_bytes m ++ word m.endian 0; endian = m.endian }
unfolding write_u8 write_u32 write_uint Writer.align Writer.align_loop word store
opened_lem m = refl

length-start :
    (m : Message)
    → (length (write_start m).bytes ≡ length (start_bytes m))
      × (length (start_bytes m ++ word m.endian 0) ≡ 16)
unfolding write_u8 write_u32 write_uint Writer.align Writer.align_loop word store
length-start m = (refl, refl)

-- The fixed header of what `serialize` gives.
abbrev pub fixed_of : Message → FixedHeader
fixed_of m = record {
  endian = m.endian;
  type = m.type;
  flags = m.flags;
  version = 1;
  body_len = length m.body;
  serial = m.serial;
  fields_len = length (encode m.endian 16 (entries m));
  valid = false;
}

-- The bytes of a message on the wire.
abbrev pub wire : Message → List ℕ
wire m = frame (fixed_of m) (entries m) m.body

-- A message that the format can carry.
pub record IsSendable (m : Message) : Type 0 where
  pub writable : IsWritable (header_of m)
  pub order : (m.endian ≡ little) ⊎ (m.endian ≡ big)
  pub serial : IsUint32 m.serial
  pub body : IsUint32 (length m.body)
  pub fields : IsUint32 (length (encode m.endian 16 (entries m)))

pub serialize_lem : (m : Message) → IsSendable m → serialize m ≡ some (wire m)
unfolding serialize write_array
serialize_lem m k =
    let e = m.endian in
    let enc = encode e 16 (entries m) in
    let start = start_bytes m in
    let sizes = length-start m in
    let written : write_fields m (record { bytes = start ++ word e 0; endian = e })
        ≡ some (record { bytes = start ++ (word e 0 ++ enc); endian = e }) =
      write_fields_lem m _ k.writable ∙ rw sizes.1 (simp append_assoc) in
    let whole : length m.body % 2 ^ 32 ≡ length m.body = omega (arith, k.body) in
    let len : (length (start ++ (word e 0 ++ enc)) - 16) % 2 ^ 32 ≡ length enc = omega (
      arith,
      ap length (append_assoc start (word e 0) enc),
      length-append (start ++ word e 0) enc,
      sizes.1,
      k.fields,
    ) in
    rw (opened_lem m, written, sizes.0, sizes.1, len, patch_word_lem start enc e (length enc))
      (rw
        (
          align_lem 8 (record { bytes = start ++ (word e (length enc) ++ enc); endian = e })
              (inr refl),
          whole,
        )
        (simp append_assoc))

-- A message whose lengths and numbers fit the words that hold them is serialised, without an
-- exception, to the bytes that the wire format has for it (`wire`), in either byte order, and those
-- bytes, with any bytes behind them, are parsed to that message. The whole is of bytes, and fewer than
-- 2 ^ 63.
pub parse-serialize :
    (m : Message) (back : List ℕ)
    → IsSendable m
    → IsValid (at [] (wire m ++ back) m.endian)
    → let front = fixed_bytes (fixed_of m) ++ encode m.endian 16 (entries m) in
      (serialize m ≡ some (wire m))
      × (parse (wire m ++ back)
          ≡ done m (at (front ++ gap 8 (length front)) (m.body ++ back) m.endian))
parse-serialize m back k v =
    let framed_m : framed (fixed_of m) (entries m) m.body ≡ m = rw (apply_all-entries m) refl in
    let ok : IsFramed (fixed_of m) (entries m) m.body = record {
      order = k.order;
      version = refl;
      serial = k.serial;
      body_len = refl;
      body_fits = k.body;
      fields_len = refl;
      fields_fit = k.fields;
      entries = entries-Fits m k.writable;
    } in
    (serialize_lem m k, parse-frame (fixed_of m) (entries m) m.body back ok v ∙ rw framed_m)
