-- ===== src/Tests/Receive.antt =====
-- A message sent and received, byte by byte.
use firmir.Base.{
  ℕ, ◌+◌, ◌^◌, ◌≤◌, ◌<◌, ◌≡◌, refl, sym, ap, arith, some, List, [], ◌∷◌, ◌++◌, codes, length,
  append-nil,
}
use firmir.Dbus.Wire.{little, store, in_order}
use firmir.Dbus.Message.Header.{
  DynamicHeader, default_dynamic, serialize_dynamic, write_string_field, write_uint32_field,
  write_signature_field,
}
use firmir.Dbus.Message.Writer
use firmir.Dbus.Message.Header.Appends.{IsWritable}
use firmir.Dbus.Message.Private.{
  MessagePrivate, default_message, default_writer, ReadResult, got, nothing, Errno, eagain,
  serialize, read_fd,
}
use firmir.Dbus.Message.Private.Stream.{Stream}
use firmir.Dbus.Message.Private.Sent.{IsSendable}
use firmir.Dbus.Message.Private.Receive.{Receiving, Ends, read_fd-Ends, waiting}

-- A descriptor from which each call gets one byte, as long as there is one.
abbrev one_byte : List ℕ → ℕ → ReadResult × List ℕ
one_byte [] n = (nothing eagain, [])
one_byte (b ∷ bs) n = (got (b ∷ []), bs)

abbrev bytes_of : ReadResult → List ℕ
bytes_of (got bs) = bs
bytes_of (nothing e) = []

one_byte_delivers :
    (w : List ℕ) (n : ℕ) (bs w' : List ℕ)
    → 0 < n
    → one_byte w n ≡ (got bs, w')
    → (w ≡ bs ++ w') × (0 < length bs) × (length bs ≤ n)
one_byte_delivers [] n bs w' h e = absurd (cc e)
one_byte_delivers (b ∷ xs) n bs w' h e =
    let taken : (b ∷ []) ≡ bs = ap (λ (x : ReadResult × List ℕ). bytes_of x.0) e in
    let left : xs ≡ w' = ap (λ (x : ReadResult × List ℕ). x.1) e in
    rw (← taken, ← left) (refl, omega arith, omega arith)

one_byte_keeps :
    (w : List ℕ) (n : ℕ) (e : Errno) (w' : List ℕ) → one_byte w n ≡ (nothing e, w') → w' ≡ w
one_byte_keeps [] n e w' q = sym (ap (λ (x : ReadResult × List ℕ). x.1) q)
one_byte_keeps (b ∷ xs) n e w' q = absurd (cc q)

abbrev one_byte-Stream : Stream one_byte
one_byte-Stream = record { pending = λ w. w; delivers = one_byte_delivers; keeps = one_byte_keeps }

abbrev pub ping_header : DynamicHeader
ping_header = record default_dynamic { member = some (codes "Ping"); reply_serial = some 7 }

pub ping_header-IsWritable : IsWritable ping_header
ping_header-IsWritable = record {
  path = tt;
  interface = tt;
  member = (omega arith, tt);
  error_name = tt;
  destination = tt;
  sender = tt;
  reply_serial = (omega arith, tt);
  unix_fds = tt;
  signature = tt;
}

abbrev pub ping : MessagePrivate
ping = record default_message {
  dynamic_header = ping_header;
  writer = record { bytes = codes "hi"; endian = little };
}

fields_fit : length (serialize_dynamic ping_header default_writer).bytes + 16 < 2 ^ 32
unfolding serialize_dynamic write_string_field write_uint32_field write_signature_field
    Writer.write_uint8 Writer.write_uint32 Writer.write_string Writer.write_signature Writer.align
    Writer.write_uint store in_order
fields_fit = omega arith

pub ping-IsSendable : IsSendable ping
ping-IsSendable = record {
  writable = ping_header-IsWritable;
  little_endian = refl;
  version = refl;
  serial = omega arith;
  body = omega arith;
  fields = fields_fit;
}

abbrev sent : List ℕ
sent = (serialize ping).0

ping_waiting : Receiving one_byte one_byte-Stream ping ping-IsSendable [] default_message sent
ping_waiting = waiting [] refl (omega arith) (sym (append-nil sent))

read_fd-Ends_example :
    Ends one_byte one_byte-Stream ping ping-IsSendable [] 0 (read_fd one_byte default_message sent)
read_fd-Ends_example =
    read_fd-Ends one_byte one_byte-Stream ping ping-IsSendable [] default_message sent ping_waiting
