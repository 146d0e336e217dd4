-- ===== src/Examples/Message/Replay.antt =====
-- `Message::parse` of examples/dbus/dbus-message.h at what the wire format has.
use firmir.Base.{
  ap, ℕ, ◌+◌, ◌%◌, ◌^◌, ◌≤◌, ◌<◌, ◌≡◌, refl, sym, arith, true, false, Option, some, List, ◌++◌,
  append_assoc, length, length-append, All, ltb, leb, le→leb, le→ltb_false, ◌⊎◌,
}
use firmir.Dbus.Wire.{Endianness, IsUint32, little, big}
use firmir.Dbus.Message.Layout.{up, gap, word, length-gap, length-word}
use firmir.Dbus.Message.Reader
use firmir.Dbus.Message.Reader.{Reader}
use firmir.Dbus.Message.Reader.Safety.{IsValid}
use firmir.Dbus.Message.Reader.Replay.{at, IsSmall, at-IsPlaced, moved, window_at}
use firmir.Dbus.Message.Header.{FixedHeader, DynamicHeader, default_dynamic}
use firmir.Dbus.Message.Header.Entries.{Entry, Fits, encode, apply_all}
use firmir.Dbus.Message.Header.Replay.{read_fields-at}
use firmir.Dbus.Message.Header.RoundTrip.{length-le-encode}
use firmir.Dbus.Message.Header.FixedRoundTrip.{fixed_bytes, word-at}
use firmir.Examples.Reader.{
  Outcome, done, threw, overran, out_of_fuel, ◌>>=◌, align, window, read_u32,
}
use firmir.Examples.Reader.Agrees.{Agrees}
use firmir.Examples.Reader.Agreement.{align_lem, read_u32-Agrees}
use firmir.Examples.Message.{Message, new_message, parse_fields, parse_body}
use firmir.Examples.Message.Rounds.{FieldsAgree, parse_fields-FieldsAgree}
use firmir.Examples.Message.Fields.{with_fields}

-- What agrees with a value is that value.
pub Agrees-done :
    {A : Type 0} (x : Reader.Outcome (Option A)) (y : Outcome A) (a : A) (r : Reader)
    → x ≡ Reader.done (some a) r
    → Agrees x y
    → y ≡ done a r
Agrees-done {A} x y a r e h = go y (rw e at h)
  where
    go : (y : Outcome A) → Agrees (Reader.done (some a) r) y → y ≡ done a r
    go (done b r') (p, q) = rw (p, q)
    go (threw e) h = absurd h
    go overran h = absurd h
    go out_of_fuel h = absurd h

FieldsAgree-done :
    (m : Message) (x : Reader.Outcome DynamicHeader) (y : Outcome Message) (h : DynamicHeader)
    (r : Reader)
    → x ≡ Reader.done (record h { valid = true }) r
    → FieldsAgree m x y
    → y ≡ done (with_fields h m) r
FieldsAgree-done m x y h r e k = go y (rw e at k)
  where
    go :
        (y : Outcome Message)
        → FieldsAgree m (Reader.done (record h { valid = true }) r) y
        → y ≡ done (with_fields h m) r
    go (done m' r') (v, (p, q)) = rw (p, q)
    go (threw e) k = absurd (cc k)
    go overran k = absurd k
    go out_of_fuel k = absurd k

-- A word at an aligned position.
pub read_u32-at :
    (front back : List ℕ) (e v : ℕ)
    → length front % 4 ≡ 0
    → IsUint32 v
    → IsSmall front (word e v ++ back)
    → read_u32 (at front (word e v ++ back) e) ≡ done v (at (front ++ word e v) back e)
read_u32-at front back e v a h small =
    Agrees-done _ _ v _ (word-at front back e v a h small)
      (read_u32-Agrees _ (at-IsPlaced front (word e v ++ back) e small))

align-at :
    (front back : List ℕ) (e : ℕ)
    → IsSmall front (gap 8 (length front) ++ back)
    → align 8 (at front (gap 8 (length front) ++ back) e)
      ≡ done tt (at (front ++ gap 8 (length front)) back e)
align-at front back e small =
    let g = gap 8 (length front) in
    let at_p = length-gap 8 (length front) (omega arith) in
    let fits : leb (up 8 (length front)) (length (front ++ (g ++ back))) ≡ true =
      le→leb _ _ (omega (arith, length-append front (g ++ back), length-append g back)) in
    rw (align_lem 8 _ (at-IsPlaced front (g ++ back) e small) (omega arith) (omega arith), fits)
      (ap (done tt) (moved front g back e _ refl (sym at_p)))

-- The loop over the bytes of entries.
pub parse_fields-at :
    (xs : List Entry) (m : Message) (front back : List ℕ) (e : Endianness)
    → All Fits xs
    → IsValid (at front (encode e (length front) xs ++ back) e)
    → let n = length front + length (encode e (length front) xs) in
      up 8 n ≤ length (front ++ (encode e (length front) xs ++ back))
      → parse_fields
          (length (front ++ (encode e (length front) xs ++ back)) + 1)
          (length front + length (encode e (length front) xs))
          (with_fields default_dynamic m)
          (at front (encode e (length front) xs ++ back) e)
        ≡ done
            (with_fields (apply_all xs default_dynamic) m)
            (at (front ++ encode e (length front) xs) back e)
parse_fields-at xs m front back e k v le =
    let bs = encode e (length front) xs in
    let r = at front (bs ++ back) e in
    let enough : length xs < length (front ++ (bs ++ back)) + 1 = omega (
      arith,
      length-append front (bs ++ back),
      length-append bs back,
      length-le-encode e (length front) xs,
    ) in
    FieldsAgree-done m _ _ (apply_all xs default_dynamic) _
      (read_fields-at xs _ _ default_dynamic front back e k enough refl v.placed.small)
      (parse_fields-FieldsAgree m _ (length front + length bs) default_dynamic r v le refl)

-- Behind the fields: the padding, and the body.
pub parse_body-at :
    (m : Message) (front body back : List ℕ) (e : Endianness)
    → IsSmall front (gap 8 (length front) ++ (body ++ back))
    → parse_body (length body) m (at front (gap 8 (length front) ++ (body ++ back)) e)
      ≡ done (record m { body = body }) (at (front ++ gap 8 (length front)) (body ++ back) e)
unfolding parse_body window
parse_body-at m front body back e small =
    let g = gap 8 (length front) in
    let f = front ++ g in
    let small' : IsSmall f (body ++ back) = rw (append_assoc front g (body ++ back)) small in
    let sizes : length (f ++ (body ++ back)) ≡ length f + (length body + length back) =
      omega (arith, length-append f (body ++ back), length-append body back) in
    let fits : ltb (length (f ++ (body ++ back))) ((length f + length body) % 2 ^ 64) ≡ false =
      le→ltb_false _ _ (omega arith) in
    let there : leb (length f + length body) (length (f ++ (body ++ back))) ≡ true =
      le→leb _ _ (omega arith) in
    rw (
      align-at front (body ++ back) e small,
      ◌>>=◌,
      fits,
      there,
      window_at f body back (length f) (length body) refl refl,
    )

-- The bytes of a message: the fixed header, the entries, the padding, and the body.
abbrev pub frame : FixedHeader → List Entry → List ℕ → List ℕ
frame h xs body =
    let front = fixed_bytes h ++ encode h.endian 16 xs in front ++ (gap 8 (length front) ++ body)

-- The three lengths and numbers of the fixed header fit what stands behind it.
pub record IsFramed (h : FixedHeader) (xs : List Entry) (body : List ℕ) : Type 0 where
  pub order : (h.endian ≡ little) ⊎ (h.endian ≡ big)
  pub version : h.version ≡ 1
  pub serial : IsUint32 h.serial
  pub body_len : h.body_len ≡ length body
  pub body_fits : IsUint32 (length body)
  pub fields_len : h.fields_len ≡ length (encode h.endian 16 xs)
  pub fields_fit : IsUint32 (length (encode h.endian 16 xs))
  pub entries : All Fits xs

-- The message that such bytes hold.
abbrev pub framed : FixedHeader → List Entry → List ℕ → Message
framed h xs body = with_fields (apply_all xs default_dynamic) (record new_message {
  endian = h.endian;
  type = h.type;
  flags = h.flags;
  serial = h.serial;
  body = body;
})

pub length-fixed_bytes : (h : FixedHeader) → length (fixed_bytes h) ≡ 16
length-fixed_bytes h = omega (
  arith,
  length-append (word h.endian h.body_len) (word h.endian h.serial ++ word h.endian h.fields_len),
  length-append (word h.endian h.serial) (word h.endian h.fields_len),
  length-word h.endian h.body_len,
  length-word h.endian h.serial,
  length-word h.endian h.fields_len,
)
