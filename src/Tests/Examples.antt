-- ===== src/Tests/Examples.antt =====
-- The client and the codec of examples/dbus at concrete messages.
use firmir.Base.{
  ℕ, zero, suc, length-take, ◌^◌, ◌≤◌, ◌<◌, ◌≡◌, refl, ap, arith, inl, inr, Bool, true, ◌&&◌,
  Option, some, List, [], ◌∷◌, ◌++◌, codes, All, length, take, drop, ltb, Bool-cases,
}
use firmir.Dbus.Wire.{IsByte, little, big, store, in_order, bswap32}
use firmir.Dbus.Message.Layout.{up, gap, word, text, short_text}
use firmir.Dbus.Message.Reader.{Reader}
use firmir.Dbus.Message.Reader.Safety.{IsValid}
use firmir.Dbus.Message.Reader.Replay.{at}
use firmir.Dbus.Message.Header.{
  FixedHeader, default_fixed, default_dynamic, method_return, signal, read_fields,
  reply_serial_field,
}
use firmir.Dbus.Message.Header.Entries.{number, encode, entry_bytes, value_bytes, encode-le}
use firmir.Dbus.Message.Header
use firmir.Dbus.Message.Header.{
  serialize_fixed, serialize_dynamic, write_string_field, write_uint32_field, write_signature_field,
}
use firmir.Dbus.Message.Header.Entries.{apply, apply_all}
use firmir.Dbus.Message.Header.FixedRoundTrip.{fixed_bytes}
use firmir.Dbus.Message.Writer
use firmir.Dbus.Message.Private
use firmir.Dbus.Message.Private.Sent.{fixed, fields, pad}
use firmir.Examples.Reader.{done}
use firmir.Examples.Reader.Safety.{Finishes}
use firmir.Examples.Message.Safety.{before, parse-Finishes}
use firmir.Examples.Message.Interop.{as_example, parse-library}
use firmir.Examples.Message.Replay.{IsFramed}
use firmir.Examples.Client.{Reading, got, ran, answers, wait_reply}
use firmir.Examples.Client.Stream.{Stream}
use firmir.Examples.Client.Messages.{
  Packet, bytes_of, message_of, all_bytes, IsPacket, IsPassed, wait_reply-Takes,
}
use firmir.Examples.Client.Conversation.{Accepts, Converses, converse-Converses}
use firmir.Examples.Handler.{Lists, on_state_changed, on_state_changed-Lists}
use firmir.Tests.Connection.{give, accept, before as asked}
use firmir.Tests.Receive.{ping, ping-IsSendable}
use firmir.Examples.Message.{Message, new_message, parse, parse_fields, serialize}
use firmir.Examples.Message.Rounds.{FieldsAgree, parse_fields-FieldsAgree}
use firmir.Examples.Message.Appends.{entries}
use firmir.Examples.Message.RoundTrip.{IsSendable, wire, fixed_of, parse-serialize}

unfoldable are_bytes : List ℕ → Bool
are_bytes [] = true
are_bytes (b ∷ bs) = ltb b 256 && are_bytes bs

are_bytes-All : (bs : List ℕ) → are_bytes bs ≡ true → All IsByte bs
unfolding are_bytes
are_bytes-All [] h = tt
are_bytes-All (b ∷ bs) h = elim (Bool-cases (ltb b 256)) [
  | inl t ↦ (ground (arith, t), are_bytes-All bs (rw t at h))
  | inr f ↦ absurd (cc (rw f at h))
]

valid : (bs : List ℕ) (e : ℕ) → are_bytes bs ≡ true → length bs < 2 ^ 63 → IsValid (at [] bs e)
valid bs e h l = record {
  placed = record { inside = omega arith; small = l };
  octets = are_bytes-All bs h;
}

-- A big-endian reply.
abbrev pong : Message
pong = record new_message {
  endian = big;
  type = method_return;
  serial = 7;
  reply_serial = some 1;
  body = codes "hi";
}

pong-IsSendable : IsSendable pong
pong-IsSendable = record {
  writable = record {
    path = tt;
    interface = tt;
    member = tt;
    error_name = tt;
    destination = tt;
    sender = tt;
    reply_serial = (omega arith, tt);
    unix_fds = tt;
    signature = tt;
  };
  order = inr refl;
  serial = omega arith;
  body = omega arith;
  fields = omega (arith, encode-le big 16 (entries pong));
}

pong-valid : IsValid (at [] (wire pong ++ []) big)
unfolding encode entry_bytes value_bytes word short_text gap up store in_order bswap32 are_bytes
pong-valid = valid (wire pong ++ []) big refl (omega arith)

parse-serialize_example :
    let front = fixed_bytes (fixed_of pong) ++ encode big 16 (entries pong) in
    (serialize pong ≡ some (wire pong))
    × (parse (wire pong ++ [])
        ≡ done pong (at (front ++ gap 8 (length front)) (codes "hi" ++ []) big))
parse-serialize_example = parse-serialize pong [] pong-IsSendable pong-valid

ping-valid : IsValid (at [] ((Private.serialize ping).0 ++ []) little)
unfolding Private.serialize serialize_fixed serialize_dynamic write_string_field write_uint32_field
    write_signature_field Writer.write_uint8 Writer.write_uint32 Writer.write_string
    Writer.write_signature Writer.align Writer.write_uint store in_order are_bytes
ping-valid = valid ((Private.serialize ping).0 ++ []) little refl (omega arith)

parse-library_example :
    let front = fixed ping ping-IsSendable ++ fields ping ping-IsSendable in
    parse ((Private.serialize ping).0 ++ [])
    ≡ done
        (as_example ping ping-IsSendable)
        (at (front ++ pad ping ping-IsSendable) (codes "hi" ++ []) little)
parse-library_example = parse-library ping [] ping-IsSendable ping-valid

-- A header whose version is unknown, and one whose field has no end.
abbrev broken : List ℕ
broken =
    b'l' ∷ 1 ∷ 0 ∷ 1 ∷ 0 ∷ 0 ∷ 0 ∷ 0 ∷ 1 ∷ 0 ∷ 0 ∷ 0 ∷ 8 ∷ 0 ∷ 0 ∷ 0 ∷ 6 ∷ 1 ∷ b's' ∷ 0 ∷ 9 ∷ 0 ∷ 0
    ∷ 0 ∷ []

broken-valid : IsValid (before broken)
unfolding are_bytes
broken-valid = valid broken little refl (omega arith)

parse-Finishes_example : Finishes 16 (before broken) (parse broken)
parse-Finishes_example = parse-Finishes broken broken-valid

abbrev fields_reader : Reader
fields_reader = record { bytes = broken; pos = 16; endian = little }

fields_reader-IsValid : IsValid fields_reader
fields_reader-IsValid = record {
  placed = record { inside = omega arith; small = omega arith };
  octets = broken-valid.octets;
}

fields_end : up 8 24 ≤ length broken
unfolding up
fields_end = omega arith

parse_fields-FieldsAgree_example :
    FieldsAgree new_message
      (read_fields 25 24 default_dynamic fields_reader)
      (parse_fields 25 24 new_message fields_reader)
parse_fields-FieldsAgree_example =
    parse_fields-FieldsAgree new_message 25 24 default_dynamic fields_reader fields_reader-IsValid
      fields_end refl

-- A descriptor that gives at once what it is asked for.
abbrev instant : List ℕ → ℕ → Reading × List ℕ
instant w n = (got (take n w), drop n w)

take-drop : (n : ℕ) (w : List ℕ) → w ≡ take n w ++ drop n w
take-drop zero w = refl
take-drop (suc n) [] = refl
take-drop (suc n) (b ∷ w) = ap (λ (bs : List ℕ). b ∷ bs) (take-drop n w)

abbrev instant-Stream : Stream instant
instant-Stream = record {
  pending = λ w. w;
  delivers = λ w n h l. (
    take n w,
    drop n w,
    (refl, (take-drop n w, (omega (arith, length-take n w), omega (arith, length-take n w)))),
  );
}

abbrev packet : ℕ → ℕ → List ℕ → Packet
packet type n body = record {
  head = record default_fixed { type = type; serial = 9; body_len = length body; fields_len = 8 };
  entries = number reply_serial_field n ∷ [];
  body = body;
}

packet-IsFramed :
    (type n : ℕ) (body : List ℕ)
    → n < 2 ^ 32
    → length body < 2 ^ 32
    → IsFramed (packet type n body).head (packet type n body).entries body
unfolding encode entry_bytes value_bytes word short_text gap up store
packet-IsFramed type n body h l = record {
  order = inl refl;
  version = refl;
  serial = omega arith;
  body_len = refl;
  body_fits = l;
  fields_len = refl;
  fields_fit = omega arith;
  entries = (h, tt);
}

-- A signal, and the answer with a name.
abbrev noise : Packet
noise = packet signal 3 []

abbrev answer : Packet
answer = packet method_return 1 (4 ∷ 0 ∷ 0 ∷ 0 ∷ (codes ":1.5" ++ 0 ∷ []))

noise-IsPacket : IsPacket noise
unfolding encode entry_bytes value_bytes word short_text gap up store in_order are_bytes
noise-IsPacket = record {
  framed = packet-IsFramed signal 3 [] (omega arith) (omega arith);
  valid = valid (bytes_of noise) little refl (omega arith);
}

answer-IsPacket : IsPacket answer
unfolding encode entry_bytes value_bytes word short_text gap up store in_order are_bytes
answer-IsPacket = record {
  framed = packet-IsFramed method_return 1 answer.body (omega arith) (omega arith);
  valid = valid (bytes_of answer) little refl (omega arith);
}

noise-IsPassed : IsPassed (message_of noise)
unfolding answers apply_all apply Header.set_uint32
noise-IsPassed = (refl, refl)

answer-answers : answers (message_of answer) ≡ true
unfolding answers apply_all apply Header.set_uint32
answer-answers = refl

abbrev traffic : List ℕ
traffic = all_bytes (noise ∷ []) ++ bytes_of answer

wait_reply-Takes_example :
    (w' : List ℕ) × ((wait_reply instant 2 (traffic ++ codes "x") ≡ ran (message_of answer) w')
      × (w' ≡ codes "x"))
wait_reply-Takes_example =
    wait_reply-Takes instant instant-Stream 2 (noise ∷ []) answer (codes "x") (traffic ++ codes "x")
      (omega arith) ((noise-IsPacket, noise-IsPassed), tt) answer-IsPacket (inl answer-answers) refl

abbrev taken : List ℕ → List ℕ → Option ℕ × List ℕ
taken w bs = (some (length bs), w)

taken-Accepts : Accepts taken (λ w. w)
taken-Accepts = record { accepts = λ w bs. (w, (refl, refl)) }

name_text : answer.body ≡ text little (codes ":1.5")
unfolding text word store in_order
name_text = refl

abbrev conversation : List ℕ
conversation = ((codes "OK" ++ codes " 1") ++ 13 ∷ 10 ∷ []) ++ (traffic ++ [])

converse-Converses_example :
    Converses instant taken instant-Stream taken-Accepts 1000 9 2
      (codes "OK 1")
      (message_of answer)
      (codes ":1.5")
      []
      conversation
converse-Converses_example =
    converse-Converses instant taken instant-Stream taken-Accepts 1000 9 2 (codes " 1")
      (codes ":1.5") (noise ∷ []) answer [] conversation
      ((omega arith, omega arith), ((omega arith, omega arith), tt)) (omega arith)
      ((noise-IsPacket, noise-IsPassed), tt) (omega arith) answer-IsPacket answer-answers
      (omega arith) name_text refl

on_state_changed-Lists_example : Lists give accept asked (on_state_changed give accept asked)
on_state_changed-Lists_example =
    on_state_changed-Lists give accept asked refl (omega arith) (omega arith)
