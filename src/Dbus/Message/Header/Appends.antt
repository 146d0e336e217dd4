-- ===== src/Dbus/Message/Header/Appends.antt =====
-- dbus/message.cpp: writing a header, and the bytes of its entries.
use firmir.Base.{
  ℕ, ◌+◌, ◌<◌, ◌≡◌, ◌∙◌, arith, Option, none, some, List, [], ◌∷◌, ◌++◌, append_assoc, append-nil,
  length, length-append, All,
}
use firmir.Dbus.Message.Layout.{up, gap, short_text, length-gap}
use firmir.Dbus.Message.Writer
use firmir.Dbus.Message.Writer.{
  Writer, append, write_uint8, write_uint32, write_string, write_signature,
}
use firmir.Dbus.Message.Writer.Appends.{
  align_lem, write_uint32_lem, write_string_lem, write_signature_lem,
}
use firmir.Dbus.Message.Header.{
  Field, DynamicHeader, s_sig, o_sig, g_sig, u_sig, write_string_field, write_uint32_field,
  write_signature_field, serialize_dynamic, path_field, interface_field, member_field,
  error_name_field, reply_serial_field, destination_field, sender_field, unix_fds_field,
  signature_field,
}
use firmir.Dbus.Message.Header.Entries.{
  Entry, object, string, number, types, Fits, field_of, sig_of, head_bytes, value_bytes,
  entry_bytes, encode, optional, entries, encode-append, length-head_bytes,
}

head_lem :
    (f : Field) (sig : List ℕ) (w : Writer)
    → length sig < 256
    → write_signature sig (write_uint8 f (Writer.align 8 w))
      ≡ append w (gap 8 (length w.bytes) ++ (f ∷ short_text sig))
unfolding write_uint8
head_lem f sig w h =
    rw
      (
        align_lem 8 w,
        write_signature_lem sig (append (append w (gap 8 (length w.bytes))) (f ∷ [])) h,
      )
      (simp append_assoc)

-- The part of an entry that all kinds share.
write_head :
    (x : Entry) (w : Writer)
    → write_signature (sig_of x) (write_uint8 (field_of x) (Writer.align 8 w))
      ≡ append w (gap 8 (length w.bytes) ++ head_bytes x)
write_head (object f v) w = head_lem f o_sig w (omega arith)
write_head (string f v) w = head_lem f s_sig w (omega arith)
write_head (number f n) w = head_lem f u_sig w (omega arith)
write_head (types v) w = head_lem signature_field g_sig w (omega arith)

-- The bytes of the value behind the head complete the entry.
pub entry_tail :
    (x : Entry) (w : Writer)
    → let w' = append w (gap 8 (length w.bytes) ++ head_bytes x) in
      append w' (value_bytes w'.endian (length w'.bytes) x)
      ≡ append w (entry_bytes w.endian (length w.bytes) x)
unfolding entry_bytes
entry_tail x w =
    let g = gap 8 (length w.bytes) in
    let next : length (w.bytes ++ (g ++ head_bytes x)) ≡ up 8 (length w.bytes) + 4 = omega (
      arith,
      length-append w.bytes (g ++ head_bytes x),
      length-append g (head_bytes x),
      length-head_bytes x,
      length-gap 8 (length w.bytes) (omega arith),
    ) in
    rw next (simp append_assoc)

-- `w'` is `w` with the bytes of the entries behind it.
record Wrote (xs : List Entry) (w w' : Writer) : Type 0 where
  wrote : w' ≡ append w (encode w.endian (length w.bytes) xs)

infixr 30 ◌▷◌
◌▷◌ :
    {xs ys : List Entry} {w w' w'' : Writer}
    → Wrote xs w w'
    → Wrote ys w' w''
    → Wrote (xs ++ ys) w w''
◌▷◌ {xs} {ys} {w} {w'} {w''} p q = record { wrote = q.wrote ∙ both }
  where
    old : List ℕ
    old = encode w.endian (length w.bytes) xs

    new : encode w'.endian (length w'.bytes) ys ≡ encode w.endian (length w.bytes + length old) ys
    new = rw (p.wrote, length-append w.bytes old)

    both :
        append w' (encode w'.endian (length w'.bytes) ys)
        ≡ append w (encode w.endian (length w.bytes) (xs ++ ys))
    both = rw (new, p.wrote, encode-append w.endian (length w.bytes) xs ys, append_assoc)

Wrote-one :
    (x : Entry) (w w' : Writer)
    → w' ≡ append w (entry_bytes w.endian (length w.bytes) x)
    → Wrote (x ∷ []) w w'
unfolding encode
Wrote-one x w w' e = record { wrote = rw append-nil e }

Wrote-none : (w : Writer) → Wrote [] w w
unfolding encode
Wrote-none w = record { wrote = rw append-nil }

object_lem :
    (f : Field) (o : Option (List ℕ)) (w : Writer)
    → All Fits (optional (object f) o)
    → Wrote (optional (object f) o) w (write_string_field f o_sig o w)
unfolding write_string_field value_bytes
object_lem f none w h = Wrote-none w
object_lem f (some v) w h = Wrote-one _ w _ (
    rw (write_head (object f v) w) (write_string_lem v _ (omega arith) ∙ entry_tail (object f v) w))

string_lem :
    (f : Field) (o : Option (List ℕ)) (w : Writer)
    → All Fits (optional (string f) o)
    → Wrote (optional (string f) o) w (write_string_field f s_sig o w)
unfolding write_string_field value_bytes
string_lem f none w h = Wrote-none w
string_lem f (some v) w h = Wrote-one _ w _ (
    rw (write_head (string f v) w) (write_string_lem v _ (omega arith) ∙ entry_tail (string f v) w))

number_lem :
    (f : Field) (o : Option ℕ) (w : Writer)
    → Wrote (optional (number f) o) w (write_uint32_field f o w)
unfolding write_uint32_field value_bytes
number_lem f none w = Wrote-none w
number_lem f (some v) w =
    Wrote-one _ w _
      (rw (write_head (number f v) w) (write_uint32_lem v _ ∙ entry_tail (number f v) w))

types_lem :
    (o : Option (List ℕ)) (w : Writer)
    → All Fits (optional types o)
    → Wrote (optional types o) w (write_signature_field o w)
unfolding write_signature_field value_bytes
types_lem none w h = Wrote-none w
types_lem (some v) w h =
    Wrote-one _ w _
      (rw (write_head (types v) w) (write_signature_lem v _ (omega arith) ∙ entry_tail (types v) w))

-- Every value of the header fits the word that holds it or its length.
pub record IsWritable (h : DynamicHeader) : Type 0 where
  pub path : All Fits (optional (object path_field) h.path)
  pub interface : All Fits (optional (string interface_field) h.interface)
  pub member : All Fits (optional (string member_field) h.member)
  pub error_name : All Fits (optional (string error_name_field) h.error_name)
  pub destination : All Fits (optional (string destination_field) h.destination)
  pub sender : All Fits (optional (string sender_field) h.sender)
  pub reply_serial : All Fits (optional (number reply_serial_field) h.reply_serial)
  pub unix_fds : All Fits (optional (number unix_fds_field) h.unix_fds)
  pub signature : All Fits (optional types h.signature)

-- `DynamicHeader::serialize` appends the fields that are there, in the source's order, each aligned to
-- eight bytes and laid out as the wire format has it, if lengths and numbers fit the words that hold
-- them.
pub serialize_dynamic_lem :
    (h : DynamicHeader) (w : Writer)
    → IsWritable h
    → serialize_dynamic h w ≡ append w (encode w.endian (length w.bytes) (entries h))
unfolding serialize_dynamic
serialize_dynamic_lem h w k =
    (object_lem path_field h.path w k.path
      ▷ string_lem interface_field h.interface _ k.interface
      ▷ string_lem member_field h.member _ k.member
      ▷ string_lem error_name_field h.error_name _ k.error_name
      ▷ string_lem destination_field h.destination _ k.destination
      ▷ string_lem sender_field h.sender _ k.sender
      ▷ number_lem reply_serial_field h.reply_serial _
      ▷ number_lem unix_fds_field h.unix_fds _
      ▷ types_lem h.signature _ k.signature).wrote
