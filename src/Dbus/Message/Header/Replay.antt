-- ===== src/Dbus/Message/Header/Replay.antt =====
-- dbus/message.cpp: reading a header from the bytes of entries.
use firmir.Base.{
  ap, ℕ, zero, suc, ◌+◌, ◌<◌, ◌≡◌, sym, ◌∙◌, arith, true, false, some, List, [], ◌∷◌, ◌++◌,
  append_assoc, append-nil, length, length-append, All, ltb, lt→ltb, le→ltb_false, same_bytes,
}
use firmir.Dbus.Wire.{Endianness}
use firmir.Dbus.Message.Layout.{up, gap, word, text, short_text, length-gap, le-up}
use firmir.Dbus.Message.Reader.{done, ◌>>=◌}
use firmir.Dbus.Message.Reader.Replay.{
  at, align-at, IsSmall, read_uint8-at, read_uint32-at, read_string-at, read_signature-at,
}
use firmir.Dbus.Message.Header.{DynamicHeader, read_value, read_field, read_fields}
use firmir.Dbus.Message.Header.Entries.{
  Entry, object, string, number, types, Fits, field_of, sig_of, head_bytes, value_bytes,
  entry_bytes, encode, apply, apply_all, length-head_bytes,
}

read_value-at :
    (x : Entry) (h : DynamicHeader) (front back : List ℕ) (e : Endianness)
    → Fits x
    → IsSmall front (value_bytes e (length front) x ++ back)
    → read_value (field_of x) (sig_of x) h (at front (value_bytes e (length front) x ++ back) e)
      ≡ done (some (apply x h)) (at (front ++ value_bytes e (length front) x) back e)
unfolding read_value value_bytes apply same_bytes
read_value-at (object f v) h front back e k small =
    let split = append_assoc (gap 4 (length front)) (text e v) back in
    rw (split, read_string-at front v back e k (rw split at small), ◌>>=◌)
read_value-at (string f v) h front back e k small =
    let split = append_assoc (gap 4 (length front)) (text e v) back in
    rw (split, read_string-at front v back e k (rw split at small), ◌>>=◌)
read_value-at (number f n) h front back e k small =
    let split = append_assoc (gap 4 (length front)) (word e n) back in
    rw (split, read_uint32-at front back e n k (rw split at small), ◌>>=◌)
read_value-at (types v) h front back e k small =
    rw (read_signature-at front v back e k small, ◌>>=◌)

sig_of-short : (x : Entry) → length (sig_of x) < 256
sig_of-short (object f v) = omega arith
sig_of-short (string f v) = omega arith
sig_of-short (number f n) = omega arith
sig_of-short (types v) = omega arith

-- The same with the position in another form.
read_value_from :
    (x : Entry) (h : DynamicHeader) (front back : List ℕ) (e : Endianness) (p : ℕ)
    → p ≡ length front
    → Fits x
    → IsSmall front (value_bytes e p x ++ back)
    → read_value (field_of x) (sig_of x) h (at front (value_bytes e p x ++ back) e)
      ≡ done (some (apply x h)) (at (front ++ value_bytes e p x) back e)
read_value_from x h front back e p q k small =
    rw q (read_value-at x h front back e k (rw q at small))

read_field-at :
    (x : Entry) (h : DynamicHeader) (front back : List ℕ) (e : Endianness)
    → Fits x
    → IsSmall front (head_bytes x ++ (value_bytes e (length front + 4) x ++ back))
    → read_field h (at front (head_bytes x ++ (value_bytes e (length front + 4) x ++ back)) e)
      ≡ done
          (some (apply x h))
          (at (front ++ (head_bytes x ++ value_bytes e (length front + 4) x)) back e)
unfolding read_field
read_field-at x h front back e k small =
    let v = value_bytes e (length front + 4) x in
    let one = field_of x ∷ [] in
    let sig = short_text (sig_of x) in
    let small' : IsSmall (front ++ one) (sig ++ (v ++ back)) =
      rw (append_assoc front one (sig ++ (v ++ back))) small in
    let small'' : IsSmall (front ++ head_bytes x) (v ++ back) =
      rw (append_assoc front (head_bytes x) (v ++ back)) small in
    let here : length front + 4 ≡ length (front ++ head_bytes x) =
      omega (arith, length-append front (head_bytes x), length-head_bytes x) in
    rw
      (
        read_uint8-at front (sig ++ (v ++ back)) e (field_of x) small,
        ◌>>=◌,
        read_signature-at (front ++ one) (sig_of x) (v ++ back) e (sig_of-short x) small',
      )
      (rw (append_assoc front one sig)
          (read_value_from x h (front ++ head_bytes x) back e (length front + 4) here k small'')
        ∙ ap (λ (bs : List ℕ). done (some (apply x h)) (at bs back e))
            (append_assoc front (head_bytes x) v))

read_field_from :
    (x : Entry) (h : DynamicHeader) (front back : List ℕ) (e : Endianness) (p : ℕ)
    → p ≡ length front
    → Fits x
    → IsSmall front (head_bytes x ++ (value_bytes e (p + 4) x ++ back))
    → read_field h (at front (head_bytes x ++ (value_bytes e (p + 4) x ++ back)) e)
      ≡ done (some (apply x h)) (at (front ++ (head_bytes x ++ value_bytes e (p + 4) x)) back e)
read_field_from x h front back e p q k small =
    rw q (read_field-at x h front back e k (rw q at small))

-- One round of the loop over an entry.
read_fields_step :
    (x : Entry) (fuel end : ℕ) (h : DynamicHeader) (front back : List ℕ) (e : Endianness)
    → Fits x
    → up 8 (length front) < end
    → IsSmall front (entry_bytes e (length front) x ++ back)
    → read_fields (suc fuel) end h (at front (entry_bytes e (length front) x ++ back) e)
      ≡ read_fields fuel end (apply x h) (at (front ++ entry_bytes e (length front) x) back e)
unfolding read_fields entry_bytes
read_fields_step x fuel end h front back e k lt small =
    let g = gap 8 (length front) in
    let v = value_bytes e (up 8 (length front) + 4) x in
    let at_p : length (front ++ g) ≡ up 8 (length front) =
      omega (arith, length-append front g, length-gap 8 (length front) (omega arith)) in
    let start : ltb (length front) end ≡ true =
      lt→ltb _ _ (omega (arith, le-up 8 (length front) (omega arith))) in
    let more : ltb (length (front ++ g)) end ≡ true = lt→ltb _ _ (omega (arith, at_p)) in
    let split : (g ++ (head_bytes x ++ v)) ++ back ≡ g ++ (head_bytes x ++ (v ++ back)) =
      simp append_assoc in
    rw
      (
        start,
        split,
        align-at 8 front (head_bytes x ++ (v ++ back)) e (omega arith) (omega arith)
            (rw split at small),
        ◌>>=◌,
        more,
      )
      (rw
        (
          read_field_from x h (front ++ g) back e (up 8 (length front)) (sym at_p) k
              (rw (append_assoc front g (head_bytes x ++ (v ++ back))) (rw split at small)),
          ◌>>=◌,
        )
        (ap (λ (bs : List ℕ). read_fields fuel end (apply x h) (at bs back e))
          (append_assoc front g (head_bytes x ++ v))))

pub entry_bytes_long : (e p : ℕ) (x : Entry) → up 8 p < p + length (entry_bytes e p x)
unfolding entry_bytes
entry_bytes_long e p x =
    let g = gap 8 p in
    let v = value_bytes e (up 8 p + 4) x in
    omega (
      arith,
      length-append g (head_bytes x ++ v),
      length-append (head_bytes x) v,
      length-head_bytes x,
      length-gap 8 p (omega arith),
    )

-- The loop over the entries, and its end.
pub read_fields-at :
    (xs : List Entry) (fuel end : ℕ) (h : DynamicHeader) (front back : List ℕ) (e : Endianness)
    → All Fits xs
    → length xs < fuel
    → end ≡ length front + length (encode e (length front) xs)
    → IsSmall front (encode e (length front) xs ++ back)
    → read_fields fuel end h (at front (encode e (length front) xs ++ back) e)
      ≡ done
          (record (apply_all xs h) { valid = true })
          (at (front ++ encode e (length front) xs) back e)
unfolding encode apply_all
read_fields-at xs zero end h front back e k f q small = absurd (omega arith)
read_fields-at [] (suc fuel) end h front back e k f q small =
    let stop : ltb (length front) end ≡ false = le→ltb_false _ _ (omega arith) in
    unfold read_fields in rw (stop, append-nil)
read_fields-at (x ∷ xs) (suc fuel) end h front back e k f q small =
    let here = entry_bytes e (length front) x in
    let there = encode e (length front + length here) xs in
    let split = append_assoc here there back in
    let next : length front + length here ≡ length (front ++ here) =
      sym (length-append front here) in
    rw
      (
        split,
        read_fields_step x fuel end h front (there ++ back) e k.0
            (omega (arith, entry_bytes_long e (length front) x, length-append here there))
            (rw split at small),
      )
      (rw next (
        read_fields-at xs fuel end (apply x h) (front ++ here) back e k.1 (omega arith)
          (rw (← next) (omega (arith, length-append here there)))
          (rw (← next, append_assoc front here (there ++ back)) (rw split at small))
        ∙ rw (append_assoc front here (encode e (length (front ++ here)) xs))))
