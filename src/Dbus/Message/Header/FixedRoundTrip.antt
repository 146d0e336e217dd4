-- ===== src/Dbus/Message/Header/FixedRoundTrip.antt =====
-- dbus/message.cpp: what is read of a fixed header that was written.
use firmir.Base.{
  ap, ℕ, ◌-◌, ◌%◌, ◌≡◌, refl, ◌∙◌, arith, true, false, some, List, [], ◌∷◌, ◌++◌, append_assoc,
  length, length-append, ltb, le→ltb_false,
}
use firmir.Dbus.Wire.{Endianness, IsUint32, little, in_order, bswap32, store}
use firmir.Dbus.Message.Layout.{up, gap, word, length-word}
use firmir.Dbus.Message.Reader.{done, ◌>>=◌, read_uint32}
use firmir.Dbus.Message.Reader.Replay.{at, IsSmall, read_uint8-at, read_uint32-at, in_order-lt}
use firmir.Dbus.Message.Writer
use firmir.Dbus.Message.Writer.{write_uint, write_uint8, write_uint32}
use firmir.Dbus.Message.Header.{FixedHeader, read_fixed, serialize_fixed}
use firmir.Dbus.Message.Header.RoundTrip.{fresh}

-- The sixteen bytes of a fixed header.
abbrev pub fixed_bytes : FixedHeader → List ℕ
fixed_bytes h =
    h.endian
    ∷ h.type
    ∷ h.flags
    ∷ h.version
    ∷ (word h.endian h.body_len ++ (word h.endian h.serial ++ word h.endian h.fields_len))

pub serialize_fixed_lem :
    (h : FixedHeader) (e : Endianness)
    → serialize_fixed h (fresh e) ≡ record { bytes = fixed_bytes h; endian = h.endian }
unfolding serialize_fixed write_uint8 write_uint32 write_uint Writer.align word store
serialize_fixed_lem h e = refl

-- The numbers that a reader of little-endian numbers finds in the header.
abbrev pub as_read : FixedHeader → FixedHeader
as_read h = record h {
  body_len = in_order bswap32 h.endian h.body_len;
  serial = in_order bswap32 h.endian h.serial;
  fields_len = in_order bswap32 h.endian h.fields_len;
  valid = true;
}

gap_none : (p : ℕ) → p % 4 ≡ 0 → gap 4 p ≡ []
unfolding gap up
gap_none p h = let none_left : p - p ≡ 0 = omega arith in rw (h, none_left)

-- A word at a position that is aligned already.
pub word-at :
    (front back : List ℕ) (e v : ℕ)
    → length front % 4 ≡ 0
    → IsUint32 v
    → IsSmall front (word e v ++ back)
    → read_uint32 (at front (word e v ++ back) e) ≡ done (some v) (at (front ++ word e v) back e)
word-at front back e v a h small =
    (rw (gap_none (length front) a) at (read_uint32-at front back e v h)) small

-- In memory a word is that of a little-endian reader.
word-little : (e v : ℕ) → word e v ≡ word little (in_order bswap32 e v)
unfolding word in_order
word-little e v = refl

read_fixed_words :
    (t f en b s l : ℕ) (back : List ℕ)
    → IsUint32 b
    → IsUint32 s
    → IsUint32 l
    → IsSmall [] (en ∷ t ∷ f ∷ 1 ∷ (word little b ++ (word little s ++ (word little l ++ back))))
    → read_fixed (
        at []
          (en ∷ t ∷ f ∷ 1 ∷ (word little b ++ (word little s ++ (word little l ++ back))))
          little)
      ≡ done
          (record {
            endian = en;
            type = t;
            flags = f;
            version = 1;
            body_len = b;
            serial = s;
            fields_len = l;
            valid = true;
          })
          (at (en ∷ t ∷ f ∷ 1 ∷ (word little b ++ (word little s ++ word little l))) back little)
unfolding read_fixed
read_fixed_words t f en b s l back hb hs hl small =
    let wl = word little l ++ back in
    let ws = word little s ++ wl in
    let wb = word little b ++ ws in
    let f0 = en ∷ t ∷ f ∷ 1 ∷ [] in
    let f1 = f0 ++ word little b in
    let f2 = f1 ++ word little s in
    let sizes : (length (f0 ++ word little b) ≡ 8)
        × (length ((f0 ++ word little b) ++ word little s) ≡ 12) =
      omega (
        arith,
        length-append (word little b) (word little s),
        length-word little b,
        length-word little s,
      ) in
    let long : ltb (length (f0 ++ wb)) 16 ≡ false = le→ltb_false _ _ (
      omega (
        arith,
        length-append (word little b) ws,
        length-append (word little s) wl,
        length-append (word little l) back,
        length-word little b,
        length-word little s,
        length-word little l,
      )) in
    let small2 : IsSmall f2 wl = rw (append_assoc (word little b) (word little s) wl) small in
    rw
      (
        long,
        read_uint8-at [] (t ∷ f ∷ 1 ∷ wb) little en small,
        ◌>>=◌,
        read_uint8-at (en ∷ []) (f ∷ 1 ∷ wb) little t small,
        ◌>>=◌,
        read_uint8-at (en ∷ t ∷ []) (1 ∷ wb) little f small,
        ◌>>=◌,
        read_uint8-at (en ∷ t ∷ f ∷ []) wb little 1 small,
        ◌>>=◌,
        word-at f0 ws little b refl hb small,
        ◌>>=◌,
        word-at f1 wl little s (omega (arith, sizes.0)) hs small,
        ◌>>=◌,
        word-at f2 back little l (omega (arith, sizes.1)) hl small2,
        ◌>>=◌,
      )
      (rw (append_assoc (word little b) (word little s) (word little l)))

read_fixed_from :
    (t f en vn b s l : ℕ) (ws back : List ℕ)
    → vn ≡ 1
    → ws ≡ word little b ++ (word little s ++ word little l)
    → IsUint32 b
    → IsUint32 s
    → IsUint32 l
    → IsSmall (en ∷ t ∷ f ∷ vn ∷ ws) back
    → read_fixed (at [] ((en ∷ t ∷ f ∷ vn ∷ ws) ++ back) little)
      ≡ done
          (record {
            endian = en;
            type = t;
            flags = f;
            version = vn;
            body_len = b;
            serial = s;
            fields_len = l;
            valid = true;
          })
          (at (en ∷ t ∷ f ∷ vn ∷ ws) back little)
read_fixed_from t f en vn b s l ws back v q hb hs hl small =
    let flat : (word little b ++ (word little s ++ word little l)) ++ back
        ≡ word little b ++ (word little s ++ (word little l ++ back)) =
      simp append_assoc in
    let small' : IsSmall []
        (en ∷ t ∷ f ∷ 1 ∷ (word little b ++ (word little s ++ (word little l ++ back)))) =
      rw (q, flat) at small in
    rw (v, q)
      (ap (λ (bs : List ℕ). read_fixed (at [] (en ∷ t ∷ f ∷ 1 ∷ bs) little)) flat
        ∙ read_fixed_words t f en b s l back hb hs hl small')

-- A fixed header of version 1 with 32-bit numbers is read back from the bytes that it serialises to,
-- now valid, with any bytes behind it, in a buffer of fewer than 2 ^ 63 bytes. The reader takes numbers for little-endian ones: of a
-- big-endian header the three numbers come back byte-swapped (`as_read`).
pub read-serialize_fixed :
    (h : FixedHeader) (e : Endianness) (back : List ℕ)
    → h.version ≡ 1
    → IsUint32 h.body_len
    → IsUint32 h.serial
    → IsUint32 h.fields_len
    → IsSmall (serialize_fixed h (fresh e)).bytes back
    → let bs = (serialize_fixed h (fresh e)).bytes in
      read_fixed (at [] (bs ++ back) little) ≡ done (as_read h) (at bs back little)
read-serialize_fixed h e back v hb hs hf small =
    let en = h.endian in
    rw (serialize_fixed_lem h e) (
      read_fixed_from h.type h.flags en h.version _ _ _ _ back v
        (rw (word-little en h.body_len, word-little en h.serial, word-little en h.fields_len))
        (in_order-lt en h.body_len hb) (in_order-lt en h.serial hs) (in_order-lt en h.fields_len hf)
        (rw (serialize_fixed_lem h e) at small))
