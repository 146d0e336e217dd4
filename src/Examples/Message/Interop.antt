-- ===== src/Examples/Message/Interop.antt =====
-- What the library of dbus/message.cpp serialises, parsed by examples/dbus/dbus-message.h.
use firmir.Base.{
  ap, ℕ, ◌+◌, ◌^◌, ◌<◌, ◌≡◌, refl, sym, ◌∙◌, arith, inl, List, [], ◌++◌, append_assoc, length,
}
use firmir.Dbus.Wire.{little}
use firmir.Dbus.Message.Reader.Safety.{IsValid}
use firmir.Dbus.Message.Reader.Replay.{at}
use firmir.Dbus.Message.Writer.{Writer}
use firmir.Dbus.Message.Header.{FixedHeader}
use firmir.Dbus.Message.Header.Entries.{encode, entries, encode_shift}
use firmir.Dbus.Message.Header.Appends.{serialize_dynamic_lem}
use firmir.Dbus.Message.Header.RoundTrip.{apply_all-entries, entries-Fits}
use firmir.Dbus.Message.Header.FixedRoundTrip.{fixed_bytes, serialize_fixed_lem}
use firmir.Dbus.Message.Private.{MessagePrivate, default_writer, with_lengths, serialize}
use firmir.Dbus.Message.Private.Sent
use firmir.Dbus.Message.Private.Sent.{
  IsSendable, fields, fixed, pad, serialize-wire, pad-gap, length-fixed,
}
use firmir.Examples.Reader.{done}
use firmir.Examples.Message.{Message, new_message, parse}
use firmir.Examples.Message.Fields.{with_fields}
use firmir.Examples.Message.Replay.{frame, IsFramed}
use firmir.Examples.Message.Framed.{parse-frame}

module _ (m : MessagePrivate) (ok : IsSendable m) where
  abbrev head : FixedHeader
  head = with_lengths m (fields m ok)

  fixed_lem : fixed m ok ≡ fixed_bytes head
  unfolding fixed fields
  fixed_lem = ap (λ (w : Writer). w.bytes) (serialize_fixed_lem head little)

  wire_lem : Sent.wire m ok ≡ fixed m ok ++ (fields m ok ++ (pad m ok ++ m.writer.bytes))
  unfolding Sent.wire
  wire_lem = refl

  fields_bound : length (fields m ok) + 16 < 2 ^ 32
  unfolding fields
  fields_bound = ok.fields

  fields_lem : fields m ok ≡ encode little 16 (entries m.dynamic_header)
  unfolding fields
  fields_lem =
      ap (λ (w : Writer). w.bytes)
        (serialize_dynamic_lem m.dynamic_header default_writer ok.writable)
      ∙ sym (encode_shift little 16 0 (entries m.dynamic_header) refl)

  serialize-frame : (serialize m).0 ≡ frame head (entries m.dynamic_header) m.writer.bytes
  unfolding serialize
  serialize-frame =
      let fix : fixed m ok ≡ fixed_bytes head = fixed_lem in
      let shape : (fixed m ok) ++ (fields m ok ++ (pad m ok ++ m.writer.bytes))
          ≡ frame head (entries m.dynamic_header) m.writer.bytes =
        rw (pad-gap m ok, fix, fields_lem, ok.little_endian) (simp append_assoc) in
      serialize-wire m ok ∙ wire_lem ∙ shape

  -- The message, as the example has it.
  abbrev pub as_example : Message
  as_example = with_fields m.dynamic_header (record new_message {
    endian = m.fixed_header.endian;
    type = m.fixed_header.type;
    flags = m.fixed_header.flags;
    serial = m.fixed_header.serial;
    body = m.writer.bytes;
  })

  head-IsFramed : IsFramed head (entries m.dynamic_header) m.writer.bytes
  head-IsFramed =
      let same = fields_lem in
      let bound = fields_bound in
      record {
        order = inl ok.little_endian;
        version = ok.version;
        serial = ok.serial;
        body_len = omega (arith, ok.body);
        body_fits = ok.body;
        fields_len = rw (ok.little_endian, ← same) (omega (arith, bound));
        fields_fit = rw (ok.little_endian, ← same) (omega (arith, bound));
        entries = entries-Fits m.dynamic_header ok.writable;
      }

-- What the library serialises of a message that the format can carry, with any bytes behind it, is
-- parsed by the example's codec to the same message: byte order, type, flags, serial, fields and body.
-- The whole is of bytes, and fewer than 2 ^ 63.
pub parse-library :
    (m : MessagePrivate) (back : List ℕ) (ok : IsSendable m)
    → IsValid (at [] ((serialize m).0 ++ back) little)
    → let front = fixed m ok ++ fields m ok in
      parse ((serialize m).0 ++ back)
      ≡ done (as_example m ok) (at (front ++ pad m ok) (m.writer.bytes ++ back) little)
parse-library m back ok v =
    let xs = entries m.dynamic_header in
    let same = serialize-frame m ok in
    rw same (
      parse-frame (head m ok) xs m.writer.bytes back (head-IsFramed m ok)
        (rw (same, ← ok.little_endian) at v)
      ∙ rw
          (
            pad-gap m ok,
            fixed_lem m ok,
            fields_lem m ok,
            ok.little_endian,
            apply_all-entries m.dynamic_header,
          )
          refl)
