-- ===== src/Dbus/Message/Header/RoundTrip.antt =====
-- dbus/message.cpp: what is read of a dynamic header that was written.
use firmir.Base.{
  ap, ℕ, ◌+◌, ◌%◌, ◌≤◌, ◌<◌, ◌≡◌, refl, sym, ◌∙◌, arith, true, false, Option, none, some, List, [],
  ◌∷◌, ◌++◌, length, length-append, All, All-append,
}
use firmir.Dbus.Wire.{Endianness}
use firmir.Dbus.Message.Layout.{le-up}
use firmir.Dbus.Message.Reader.{done}
use firmir.Dbus.Message.Reader.Replay.{at, IsSmall}
use firmir.Dbus.Message.Writer.{Writer}
use firmir.Dbus.Message.Header.{
  DynamicHeader, default_dynamic, read_dynamic, serialize_dynamic, set_string, set_uint32,
  set_signature, path_field, interface_field, member_field, error_name_field, reply_serial_field,
  destination_field, sender_field, unix_fds_field,
}
use firmir.Dbus.Message.Header.Entries.{
  Entry, object, string, number, types, Fits, entry_bytes, encode, apply, apply_all, optional,
  entries, encode_shift,
}
use firmir.Dbus.Message.Header.Appends.{IsWritable, serialize_dynamic_lem}
use firmir.Dbus.Message.Header.Replay.{read_fields-at, entry_bytes_long}

pub apply_all-append :
    (xs ys : List Entry) (h : DynamicHeader)
    → apply_all (xs ++ ys) h ≡ apply_all ys (apply_all xs h)
unfolding apply_all
apply_all-append [] ys h = refl
apply_all-append (x ∷ xs) ys h = apply_all-append xs ys (apply x h)

module _ (h : DynamicHeader) where
  pub apply_path :
      (o : Option (List ℕ))
      → h.path ≡ none
      → apply_all (optional (object path_field) o) h ≡ record h { path = o }
  unfolding apply_all apply set_string
  apply_path none e = ap (λ (p : Option (List ℕ)). record h { path = p }) e
  apply_path (some v) e = refl

  pub apply_interface :
      (o : Option (List ℕ))
      → h.interface ≡ none
      → apply_all (optional (string interface_field) o) h ≡ record h { interface = o }
  unfolding apply_all apply set_string
  apply_interface none e = ap (λ (p : Option (List ℕ)). record h { interface = p }) e
  apply_interface (some v) e = refl

  pub apply_member :
      (o : Option (List ℕ))
      → h.member ≡ none
      → apply_all (optional (string member_field) o) h ≡ record h { member = o }
  unfolding apply_all apply set_string
  apply_member none e = ap (λ (p : Option (List ℕ)). record h { member = p }) e
  apply_member (some v) e = refl

  pub apply_error_name :
      (o : Option (List ℕ))
      → h.error_name ≡ none
      → apply_all (optional (string error_name_field) o) h ≡ record h { error_name = o }
  unfolding apply_all apply set_string
  apply_error_name none e = ap (λ (p : Option (List ℕ)). record h { error_name = p }) e
  apply_error_name (some v) e = refl

  pub apply_destination :
      (o : Option (List ℕ))
      → h.destination ≡ none
      → apply_all (optional (string destination_field) o) h ≡ record h { destination = o }
  unfolding apply_all apply set_string
  apply_destination none e = ap (λ (p : Option (List ℕ)). record h { destination = p }) e
  apply_destination (some v) e = refl

  pub apply_sender :
      (o : Option (List ℕ))
      → h.sender ≡ none
      → apply_all (optional (string sender_field) o) h ≡ record h { sender = o }
  unfolding apply_all apply set_string
  apply_sender none e = ap (λ (p : Option (List ℕ)). record h { sender = p }) e
  apply_sender (some v) e = refl

  pub apply_reply_serial :
      (o : Option ℕ)
      → h.reply_serial ≡ none
      → apply_all (optional (number reply_serial_field) o) h ≡ record h { reply_serial = o }
  unfolding apply_all apply set_uint32
  apply_reply_serial none e = ap (λ (p : Option ℕ). record h { reply_serial = p }) e
  apply_reply_serial (some v) e = refl

  pub apply_unix_fds :
      (o : Option ℕ)
      → h.unix_fds ≡ none
      → apply_all (optional (number unix_fds_field) o) h ≡ record h { unix_fds = o }
  unfolding apply_all apply set_uint32
  apply_unix_fds none e = ap (λ (p : Option ℕ). record h { unix_fds = p }) e
  apply_unix_fds (some v) e = refl

  pub apply_types :
      (o : Option (List ℕ))
      → h.signature ≡ none
      → apply_all (optional types o) h ≡ record h { signature = o }
  unfolding apply_all apply set_signature
  apply_types none e = ap (λ (p : Option (List ℕ)). record h { signature = p }) e
  apply_types (some v) e = refl

-- The entries of a header, applied to the empty header, give the header.
pub apply_all-entries :
    (h : DynamicHeader) → apply_all (entries h) default_dynamic ≡ record h { valid = false }
apply_all-entries h =
    let h0 = default_dynamic in
    let h1 = record h0 { path = h.path } in
    let h2 = record h1 { interface = h.interface } in
    let h3 = record h2 { member = h.member } in
    let h4 = record h3 { error_name = h.error_name } in
    let h5 = record h4 { destination = h.destination } in
    let h6 = record h5 { sender = h.sender } in
    let h7 = record h6 { reply_serial = h.reply_serial } in
    let h8 = record h7 { unix_fds = h.unix_fds } in
    rw (
      apply_all-append (optional (object path_field) h.path) _ h0,
      apply_path h0 h.path refl,
      apply_all-append (optional (string interface_field) h.interface) _ h1,
      apply_interface h1 h.interface refl,
      apply_all-append (optional (string member_field) h.member) _ h2,
      apply_member h2 h.member refl,
      apply_all-append (optional (string error_name_field) h.error_name) _ h3,
      apply_error_name h3 h.error_name refl,
      apply_all-append (optional (string destination_field) h.destination) _ h4,
      apply_destination h4 h.destination refl,
      apply_all-append (optional (string sender_field) h.sender) _ h5,
      apply_sender h5 h.sender refl,
      apply_all-append (optional (number reply_serial_field) h.reply_serial) _ h6,
      apply_reply_serial h6 h.reply_serial refl,
      apply_all-append (optional (number unix_fds_field) h.unix_fds) _ h7,
      apply_unix_fds h7 h.unix_fds refl,
      apply_types h8 h.signature refl,
    )

pub entries-Fits : (h : DynamicHeader) → IsWritable h → All Fits (entries h)
entries-Fits h k = All-append Fits (optional (object path_field) h.path) _ k.path (
    All-append Fits (optional (string interface_field) h.interface) _ k.interface (
      All-append Fits (optional (string member_field) h.member) _ k.member (
        All-append Fits (optional (string error_name_field) h.error_name) _ k.error_name (
          All-append Fits (optional (string destination_field) h.destination) _ k.destination (
            All-append Fits (optional (string sender_field) h.sender) _ k.sender (
              All-append Fits (optional (number reply_serial_field) h.reply_serial) _ k.reply_serial
                (All-append Fits (optional (number unix_fds_field) h.unix_fds) _ k.unix_fds
                  k.signature)))))))

pub length-le-encode : (e p : ℕ) (xs : List Entry) → length xs ≤ length (encode e p xs)
unfolding encode
length-le-encode e p [] = omega arith
length-le-encode e p (x ∷ xs) = omega (
  arith,
  length-append (entry_bytes e p x) (encode e (p + length (entry_bytes e p x)) xs),
  entry_bytes_long e p x,
  le-up 8 p (omega arith),
  length-le-encode e (p + length (entry_bytes e p x)) xs,
)

-- The empty writer, of a given byte order.
abbrev pub fresh : Endianness → Writer
fresh e = record { bytes = []; endian = e }

-- A dynamic header whose lengths and numbers fit the words that hold them is read back as it was
-- serialised, now valid, in either byte order: behind any whole number of eight-byte blocks, with any
-- bytes behind it, which are left to the reader, in a buffer of fewer than 2 ^ 63 bytes.
pub read-serialize_dynamic :
    (h : DynamicHeader) (e : Endianness) (front back : List ℕ)
    → IsWritable h
    → length front % 8 ≡ 0
    → IsSmall front ((serialize_dynamic h (fresh e)).bytes ++ back)
    → let bs = (serialize_dynamic h (fresh e)).bytes in
      read_dynamic (length front + length bs) (at front (bs ++ back) e)
      ≡ done (record h { valid = true }) (at (front ++ bs) back e)
unfolding read_dynamic
read-serialize_dynamic h e front back k a small =
    let xs = entries h in
    let bytes = encode e (length front) xs in
    let zero_on : length front + 0 ≡ length front = omega arith in
    let same : (serialize_dynamic h (fresh e)).bytes ≡ bytes =
      ap (λ (w : Writer). w.bytes) (serialize_dynamic_lem h (fresh e) k)
      ∙ sym (rw zero_on at (encode_shift e (length front) 0 xs a)) in
    let enough : length xs < length (front ++ (bytes ++ back)) + 1 = omega (
      arith,
      length-append front (bytes ++ back),
      length-append bytes back,
      length-le-encode e (length front) xs,
    ) in
    rw same (
      read_fields-at xs _ _ default_dynamic front back e (entries-Fits h k) enough refl
        (rw same at small)
      ∙ rw (apply_all-entries h))
