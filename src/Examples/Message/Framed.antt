-- ===== src/Examples/Message/Framed.antt =====
-- `Message::parse` of examples/dbus/dbus-message.h on the bytes of a whole message.
use firmir.Base.{
  ap, ℕ, ◌+◌, ◌%◌, ◌^◌, ◌≤◌, ◌≡◌, refl, sym, ◌∙◌, arith, false, List, [], ◌∷◌, ◌++◌, append_assoc,
  length, length-append, All, ltb, le→ltb_false, ◌⊎◌, inl, inr, not, ◌||◌, ◌==◌,
}
use firmir.Dbus.Wire.{Endianness, IsUint32, little, big}
use firmir.Dbus.Message.Layout.{up, gap, word, length-gap, length-word}
use firmir.Dbus.Message.Reader.{Reader}
use firmir.Dbus.Message.Reader.Safety.{IsPlaced, IsValid}
use firmir.Dbus.Message.Reader.Replay.{at, IsSmall, at-IsPlaced}
use firmir.Dbus.Message.Header.{FixedHeader, default_dynamic}
use firmir.Dbus.Message.Header.Entries.{Entry, Fits, encode, apply_all}
use firmir.Dbus.Message.Header.FixedRoundTrip.{fixed_bytes}
use firmir.Examples.Reader.{done, ◌>>=◌, align, seek, read_array_bounds}
use firmir.Examples.Message.{Message, new_message, parse_fields, parse_rest, parse}
use firmir.Examples.Message.Fields.{with_fields}
use firmir.Examples.Message.Replay.{
  read_u32-at, parse_fields-at, parse_body-at, frame, IsFramed, framed,
}

align_here : (r : Reader) → IsPlaced r → r.pos ≡ 16 → align 8 r ≡ done tt r
unfolding align
align_here r v h = ground arith

seek_lem : (p : ℕ) (r : Reader) → p ≤ length r.bytes → seek p r ≡ done tt (record r { pos = p })
unfolding seek
seek_lem p r h = rw (le→ltb_false _ _ h)

seek_here : (p : ℕ) (r : Reader) → IsPlaced r → p ≡ r.pos → seek p r ≡ done tt r
seek_here p r v h =
    seek_lem p r (omega (arith, v.inside)) ∙ ap (λ (q : ℕ). done tt (record r { pos = q })) h

-- The bounds of the fields, at the twelfth byte.
read_array_bounds-at :
    (front back : List ℕ) (e n : ℕ)
    → length front ≡ 12
    → IsUint32 n
    → n ≤ length back
    → IsSmall front (word e n ++ back)
    → read_array_bounds 8 (at front (word e n ++ back) e)
      ≡ done (16, 16 + n) (at (front ++ word e n) back e)
unfolding read_array_bounds
read_array_bounds-at front back e n h k le small =
    let f = front ++ word e n in
    let size : length f ≡ 16 = omega (arith, length-append front (word e n), length-word e n) in
    let small' : IsSmall f back = rw (append_assoc front (word e n) back) small in
    let same : (length f + n) % 2 ^ 64 ≡ 16 + n = omega arith in
    let fits : ltb (length (f ++ back)) (16 + n) ≡ false =
      le→ltb_false _ _ (omega (arith, length-append f back)) in
    rw
      (
        read_u32-at front back e n (omega arith) k small,
        ◌>>=◌,
        align_here _ (at-IsPlaced f back e small') size,
        same,
        fits,
      )
      (ap (λ (p : ℕ). done (p, 16 + n) (at f back e)) size)

-- The same buffer, read to another place.
regroup :
    (bs front back : List ℕ) (e : Endianness)
    → IsValid (at [] bs e)
    → bs ≡ front ++ back
    → IsValid (at front back e)
regroup bs front back e v q = record {
  placed = at-IsPlaced front back e (rw (← q) (v.placed.small));
  octets = rw (← q) (v.octets);
}

parse_fields-from :
    (xs : List Entry) (m : Message) (front back : List ℕ) (e : Endianness) (p : ℕ)
    → p ≡ length front
    → All Fits xs
    → IsValid (at front (encode e p xs ++ back) e)
    → up 8 (p + length (encode e p xs)) ≤ length (front ++ (encode e p xs ++ back))
    → parse_fields
        (length (front ++ (encode e p xs ++ back)) + 1)
        (p + length (encode e p xs))
        (with_fields default_dynamic m)
        (at front (encode e p xs ++ back) e)
      ≡ done (with_fields (apply_all xs default_dynamic) m) (at (front ++ encode e p xs) back e)
parse_fields-from xs m front back e p q k v le =
    rw q (parse_fields-at xs m front back e k (rw q at v) (rw q at le))

module _ (e t f s : ℕ) (xs : List Entry) (body back : List ℕ) where
  abbrev enc : List ℕ
  enc = encode e 16 xs

  abbrev f0 : List ℕ
  f0 = e ∷ t ∷ f ∷ 1 ∷ []

  abbrev f1 : List ℕ
  f1 = f0 ++ word e (length body)

  abbrev f2 : List ℕ
  f2 = f1 ++ word e s

  abbrev f3 : List ℕ
  f3 = f2 ++ word e (length enc)

  abbrev pad : List ℕ
  pad = gap 8 (length (f3 ++ enc))

  abbrev behind : List ℕ
  behind = enc ++ (pad ++ (body ++ back))

  abbrev all_bytes : List ℕ
  all_bytes = f0 ++ (word e (length body) ++ (word e s ++ (word e (length enc) ++ behind)))

  parse_rest-at :
      All Fits xs
      → IsUint32 s
      → IsUint32 (length body)
      → IsUint32 (length enc)
      → IsValid (at [] all_bytes e)
      → parse_rest
          (record new_message { endian = e; type = t; flags = f })
          (record { bytes = all_bytes; pos = 0; endian = e })
        ≡ done
            (with_fields
              (apply_all xs default_dynamic)
              (record new_message { endian = e; type = t; flags = f; serial = s; body = body }))
            (at ((f3 ++ enc) ++ pad) (body ++ back) e)
  unfolding parse_rest
  parse_rest-at fits serial_fits body_fits fields_fit v =
      let m = record new_message { endian = e; type = t; flags = f; serial = s } in
      let v3 : IsValid (at f3 behind e) = regroup all_bytes f3 behind e v (simp append_assoc) in
      let l1 : length f1 ≡ 8 =
        omega (arith, length-append f0 (word e (length body)), length-word e (length body)) in
      let l2 : length f2 ≡ 12 = omega (arith, length-append f1 (word e s), length-word e s) in
      let l3 : length f3 ≡ 16 =
        omega (arith, length-append f2 (word e (length enc)), length-word e (length enc)) in
      let up_same : up 8 (length (f3 ++ enc)) ≡ up 8 (16 + length enc) =
        ap (up 8) (omega (arith, l3, length-append f3 enc)) in
      let long : up 8 (16 + length enc) ≤ length (f3 ++ behind) = omega (
        arith,
        l3,
        length-append f3 behind,
        length-append enc (pad ++ (body ++ back)),
        length-append pad (body ++ back),
        length-append f3 enc,
        length-gap 8 (length (f3 ++ enc)) (omega arith),
        up_same,
      ) in
      rw
        (
          seek_lem 4 (record { bytes = all_bytes; pos = 0; endian = e }) (omega arith),
          ◌>>=◌,
          read_u32-at f0 (word e s ++ (word e (length enc) ++ behind)) e (length body) refl
              body_fits (v.placed.small),
          ◌>>=◌,
          read_u32-at f1 (word e (length enc) ++ behind) e s (omega (arith, l1)) serial_fits
              ((regroup all_bytes f1 _ e v (simp append_assoc)).placed.small),
          ◌>>=◌,
          read_array_bounds-at f2 behind e (length enc) l2 fields_fit
              (omega (arith, length-append enc (pad ++ (body ++ back))))
              ((regroup all_bytes f2 _ e v (simp append_assoc)).placed.small),
          ◌>>=◌,
          seek_here 16 (at f3 behind e) v3.placed (sym l3),
          ◌>>=◌,
          parse_fields-from xs m f3 (pad ++ (body ++ back)) e 16 (sym l3) fits v3 long,
          ◌>>=◌,
        )
        (parse_body-at _ (f3 ++ enc) body back e
          ((regroup all_bytes (f3 ++ enc) _ e v (simp append_assoc)).placed.small))

  parse_all :
      (e ≡ little) ⊎ (e ≡ big)
      → All Fits xs
      → IsUint32 s
      → IsUint32 (length body)
      → IsUint32 (length enc)
      → IsValid (at [] all_bytes e)
      → parse all_bytes
        ≡ done
            (with_fields
              (apply_all xs default_dynamic)
              (record new_message { endian = e; type = t; flags = f; serial = s; body = body }))
            (at ((f3 ++ enc) ++ pad) (body ++ back) e)
  unfolding parse
  parse_all order k1 k2 k3 k4 v =
      let long : ltb (length all_bytes) 16 ≡ false = le→ltb_false _ _ (
        omega (
          arith,
          length-append (word e (length body)) (word e s ++ (word e (length enc) ++ behind)),
          length-append (word e s) (word e (length enc) ++ behind),
          length-append (word e (length enc)) behind,
          length-word e (length body),
          length-word e s,
          length-word e (length enc),
        )) in
      let known : not ((e == little) || (e == big)) ≡ false = elim order [
        | inl p ↦ rw p
        | inr p ↦ rw p
      ] in
      rw (long, known) (parse_rest-at k1 k2 k3 k4 v)

-- The bytes of a message, in either byte order and with any bytes behind them, are parsed to that
-- message: whatever the order of the entries, and whether or not a field comes twice, it has the fields
-- that they set one after another. The whole is fewer than 2 ^ 63 bytes.
pub parse-frame :
    (h : FixedHeader) (xs : List Entry) (body back : List ℕ)
    → IsFramed h xs body
    → IsValid (at [] (frame h xs body ++ back) h.endian)
    → let front = fixed_bytes h ++ encode h.endian 16 xs in
      parse (frame h xs body ++ back)
      ≡ done (framed h xs body) (at (front ++ gap 8 (length front)) (body ++ back) h.endian)
parse-frame h xs body back k v =
    let flat : frame h xs body ++ back ≡ all_bytes h.endian h.type h.flags h.serial xs body back =
      rw (k.version, k.body_len, k.fields_len) (simp append_assoc) in
    let passed : (f3 h.endian h.type h.flags h.serial xs body back ++ encode h.endian 16 xs)
          ++ pad h.endian h.type h.flags h.serial xs body back
        ≡ (fixed_bytes h ++ encode h.endian 16 xs)
          ++ gap 8 (length (fixed_bytes h ++ encode h.endian 16 xs)) =
      rw (k.version, k.body_len, k.fields_len) (simp append_assoc) in
    rw flat (
      parse_all h.endian h.type h.flags h.serial xs body back k.order k.entries k.serial k.body_fits
        k.fields_fit (rw flat at v)
      ∙ ap (λ (bs : List ℕ). done (framed h xs body) (at bs (body ++ back) h.endian)) passed)
