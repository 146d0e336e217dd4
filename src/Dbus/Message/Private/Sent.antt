-- ===== src/Dbus/Message/Private/Sent.antt =====
-- `serialize` of dbus/message.cpp: the parts of the bytes that it gives, and how a receiver reads each.
use firmir.Base.{
  ap, ℕ, ◌+◌, ◌^◌, ◌<◌, ◌≡◌, refl, sym, ◌∙◌, arith, true, List, [], ◌++◌, append_assoc, append-nil,
  length, length-append, replicate, length-replicate,
}
use firmir.Dbus.Wire.{IsUint32, little, in_order, bswap32}
use firmir.Dbus.Message.Layout.{up, gap, word, length-word}
use firmir.Dbus.Message.Reader
use firmir.Dbus.Message.Reader.{Reader, Outcome, done}
use firmir.Dbus.Message.Reader.Replay.{at, align-at}
use firmir.Dbus.Message.Writer.{Writer}
use firmir.Dbus.Message.Header.{
  FixedHeader, read_fixed, read_dynamic, serialize_dynamic, serialize_fixed,
}
use firmir.Dbus.Message.Header.Appends.{IsWritable}
use firmir.Dbus.Message.Header.RoundTrip.{read-serialize_dynamic}
use firmir.Dbus.Message.Header.FixedRoundTrip.{as_read, serialize_fixed_lem, read-serialize_fixed}
use firmir.Dbus.Message.Private.{
  MessagePrivate, default_message, default_writer, padding, with_lengths, serialize, success,
  attempt, parse_fixed, parse_dynamic, header_total, total_size,
}
use firmir.Dbus.Message.Private.Stream.{set_bytes}

-- A message that the format can carry, in the byte order of the host.
pub record IsSendable (m : MessagePrivate) : Type 0 where
  pub writable : IsWritable m.dynamic_header
  pub little_endian : m.fixed_header.endian ≡ little
  pub version : m.fixed_header.version ≡ 1
  pub serial : IsUint32 m.fixed_header.serial
  pub body : IsUint32 (length m.writer.bytes)
  pub fields : length (serialize_dynamic m.dynamic_header default_writer).bytes + 16 < 2 ^ 32

in_order_native : (e v : ℕ) → e ≡ little → in_order bswap32 e v ≡ v
unfolding in_order
in_order_native e v h = rw h

-- The parts of what is sent.
module _ (m : MessagePrivate) (ok : IsSendable m) where
  unfoldable pub fields : List ℕ
  fields = (serialize_dynamic m.dynamic_header default_writer).bytes

  unfoldable pub fixed : List ℕ
  fixed = (serialize_fixed (with_lengths m fields) default_writer).bytes

  -- The header that the receiver has behind the first sixteen bytes.
  unfoldable pub header : FixedHeader
  header = record (with_lengths m fields) { valid = true }

  unfoldable pub pad : List ℕ
  pad = replicate (padding (length fields)) 0

  pub length-fixed : length fixed ≡ 16
  unfolding fixed
  length-fixed =
      let h = with_lengths m fields in
      omega (
        arith,
        ap (λ (w : Writer). length w.bytes) (serialize_fixed_lem h little),
        length-append (word h.endian h.body_len)
            (word h.endian h.serial ++ word h.endian h.fields_len),
        length-append (word h.endian h.serial) (word h.endian h.fields_len),
        length-word h.endian h.body_len,
        length-word h.endian h.serial,
        length-word h.endian h.fields_len,
      )

  as_read-header : as_read (with_lengths m fields) ≡ header
  unfolding header
  as_read-header =
      let native = λ (v : ℕ). in_order_native m.fixed_header.endian v ok.little_endian in
      let h = with_lengths m fields in rw (native h.body_len, native h.serial, native h.fields_len)

  read_header : read_fixed (at [] (fixed ++ []) little) ≡ done header (at fixed [] little)
  unfolding fixed
  read_header =
      read-serialize_fixed (with_lengths m fields) little [] ok.version (omega arith) ok.serial
        (omega arith) (rw append-nil (omega (arith, length-fixed)))
      ∙ ap (λ (h : FixedHeader). done h (at fixed [] little)) as_read-header

  length-pad : length pad ≡ padding (length fields)
  unfolding pad
  length-pad = length-replicate {A = ℕ} (padding (length fields)) 0

  unfoldable pub wire : List ℕ
  wire = fixed ++ (fields ++ (pad ++ m.writer.bytes))

  pub serialize-wire : (serialize m).0 ≡ wire
  unfolding serialize wire fixed fields pad
  serialize-wire = refl

  fields_bound : length fields + 16 < 2 ^ 32
  unfolding fields
  fields_bound = ok.fields

  header_total_lem : header_total header ≡ 16 + length fields
  unfolding header fields
  header_total_lem = omega (arith, ok.fields)

  pub total_size_lem : total_size header ≡ length wire
  unfolding header wire fields fixed
  total_size_lem = omega (
    arith,
    length-append fixed (fields ++ (pad ++ m.writer.bytes)),
    length-append fields (pad ++ m.writer.bytes),
    length-append pad m.writer.bytes,
    length-fixed,
    length-pad,
    ok.fields,
    ok.body,
  )

  -- The message that the receiver has at the end: the headers, and the reader at the body.
  unfoldable pub received : MessagePrivate
  received = record default_message {
    fixed_header = header;
    dynamic_header = record (m.dynamic_header) { valid = true };
    reader = at (fixed ++ (fields ++ pad)) m.writer.bytes little;
  }

  -- The message behind the first sixteen bytes, with `bs` in the buffer.
  unfoldable pub begun : List ℕ → MessagePrivate
  begun bs = record default_message {
    fixed_header = header;
    reader = record { bytes = bs; pos = 16; endian = little };
  }

  small : length wire < 2 ^ 63
  unfolding wire
  small = omega (
    arith,
    length-append fixed (fields ++ (pad ++ m.writer.bytes)),
    length-append fields (pad ++ m.writer.bytes),
    length-append pad m.writer.bytes,
    length-fixed,
    length-pad,
    fields_bound,
    ok.body,
  )

  pub pad-gap : pad ≡ gap 8 (length (fixed ++ fields))
  unfolding pad gap up
  pad-gap =
      let size : length (fixed ++ fields) ≡ 16 + length fields =
        omega (arith, length-append fixed fields, length-fixed) in
      ap (λ (k : ℕ). replicate k 0) (ground arith)

  read_fields :
      read_dynamic
        (length fixed + length fields)
        (at fixed (fields ++ (pad ++ m.writer.bytes)) little)
      ≡ done
          (record (m.dynamic_header) { valid = true })
          (at (fixed ++ fields) (pad ++ m.writer.bytes) little)
  unfolding fields wire
  read_fields =
      read-serialize_dynamic m.dynamic_header little fixed (pad ++ m.writer.bytes) ok.writable
        (omega (arith, length-fixed)) small

  reach_body :
      Reader.align 8 (at (fixed ++ fields) (pad ++ m.writer.bytes) little)
      ≡ done true (at (fixed ++ (fields ++ pad)) m.writer.bytes little)
  unfolding wire
  reach_body = rw pad-gap (
      align-at 8 (fixed ++ fields) m.writer.bytes little (omega arith) (omega arith)
        (rw (← pad-gap, append_assoc fixed fields (pad ++ m.writer.bytes)) small)
      ∙ ap (λ (bs : List ℕ). done true (at bs m.writer.bytes little))
          (append_assoc fixed fields (gap 8 (length (fixed ++ fields)))))

  behind_fixed : 16 + length fields ≡ length fixed + length fields
  behind_fixed = omega (arith, length-fixed)

  pub parse_dynamic_lem : parse_dynamic (begun wire) ≡ attempt success received
  unfolding parse_dynamic begun received wire
  parse_dynamic_lem =
      rw
        (
          ap
              (λ (n : ℕ).
                read_dynamic (header_total header)
                  (record { bytes = wire; pos = n; endian = little }))
              (sym length-fixed),
          header_total_lem,
        )
        (rw (behind_fixed, read_fields, reach_body))

  pub parse_fixed_lem :
      parse_fixed (set_bytes default_message fixed) ≡ attempt success (begun fixed)
  unfolding parse_fixed begun header
  parse_fixed_lem = rw (rw append-nil at read_header, length-fixed)
