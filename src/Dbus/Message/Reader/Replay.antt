-- ===== src/Dbus/Message/Reader/Replay.antt =====
-- `MessagePrivate::Reader` of dbus/message.cpp at what the wire format has.
use firmir.Base.{
  ap, ℕ, ◌+◌, ◌%◌, ◌^◌, ◌≤◌, ◌<◌, ◌≡◌, refl, sym, arith, true, some, List, [], ◌∷◌, ◌++◌,
  append_assoc, length, length-append, get_elem?, get_elem?-append, take, drop, take-append,
  drop-append, leb, le→leb,
}
use firmir.Dbus.Wire.{Endianness, IsUint32, size_mod, load, bswap32, in_order}
use firmir.Dbus.Wire.Swap.{bswap32_twice, bswap32-lt, load-store}
use firmir.Dbus.Message.Layout.{up, gap, word, text, short_text, length-gap, length-word}
use firmir.Dbus.Message.Reader.{
  Reader, done, align, ◌>>=◌, current, read_uint8, read_uint32, read_terminated, read_string,
  read_signature,
}
use firmir.Dbus.Message.Reader.Safety.{IsPlaced, align_lem, read_aligned_lem}
use firmir.Dbus.Message.Reader.Strings.{read_terminated_lem}

-- The reader that has passed `front` and has `back` before it.
abbrev pub at : List ℕ → List ℕ → Endianness → Reader
at front back e = record { bytes = front ++ back; pos = length front; endian = e }

abbrev pub IsSmall : List ℕ → List ℕ → Type 0
IsSmall front back = length (front ++ back) < 2 ^ 63

pub at-IsPlaced :
    (front back : List ℕ) (e : Endianness) → IsSmall front back → IsPlaced (at front back e)
at-IsPlaced front back e h = record { inside = omega (arith, length-append front back); small = h }

-- The reader that has gone on over `mid`.
pub moved :
    (front mid back : List ℕ) (e n : ℕ) {bs : List ℕ}
    → bs ≡ front ++ (mid ++ back)
    → n ≡ length front + length mid
    → ◌≡◌ {A = Reader} (record { bytes = bs; pos = n; endian = e }) (at (front ++ mid) back e)
moved front mid back e n p h = rw (p, h, append_assoc, length-append front mid)

pub read_uint8-at :
    (front back : List ℕ) (e b : ℕ)
    → IsSmall front (b ∷ back)
    → read_uint8 (at front (b ∷ back) e) ≡ done (some b) (at (front ++ b ∷ []) back e)
unfolding read_uint8 current
read_uint8-at front back e b h =
    let l = length-append front (b ∷ back) in
    let fits : leb ((length front + 1) % size_mod) (length (front ++ b ∷ back)) ≡ true =
      le→leb _ _ (omega arith) in
    rw (fits, get_elem?-append front b back, ◌>>=◌, current)
      (ap (done (some b)) (moved front (b ∷ []) back e _ refl (omega arith)))

pub window_at :
    (front mid back : List ℕ) (n k : ℕ)
    → n ≡ length front
    → k ≡ length mid
    → take k (drop n (front ++ (mid ++ back))) ≡ mid
window_at front mid back n k h i = rw (h, i, drop-append front (mid ++ back), take-append mid back)

in_order_twice : (e v : ℕ) → IsUint32 v → in_order bswap32 e (in_order bswap32 e v) ≡ v
unfolding in_order
in_order_twice e v h = ground (arith, bswap32_twice v)

pub in_order-lt : (e v : ℕ) → IsUint32 v → IsUint32 (in_order bswap32 e v)
unfolding in_order
in_order-lt e v h = ground (arith, bswap32-lt v)

pub load-word : (e v : ℕ) → IsUint32 v → in_order bswap32 e (load (word e v)) ≡ v
unfolding word
load-word e v h =
    rw (load-store 4 (in_order bswap32 e v) (in_order-lt e v h)) (in_order_twice e v h)

pub read_uint32-at :
    (front back : List ℕ) (e v : ℕ)
    → IsUint32 v
    → IsSmall front (gap 4 (length front) ++ (word e v ++ back))
    → read_uint32 (at front (gap 4 (length front) ++ (word e v ++ back)) e)
      ≡ done (some v) (at (front ++ (gap 4 (length front) ++ word e v)) back e)
unfolding read_uint32
read_uint32-at front back e v h small =
    let g = gap 4 (length front) in
    let p = up 4 (length front) in
    let at_p : length (front ++ g) ≡ p =
      omega (arith, length-append front g, length-gap 4 (length front) (omega arith)) in
    let size : length (front ++ (g ++ (word e v ++ back))) ≡ p + 4 + length back = omega (
      arith,
      at_p,
      ap length (append_assoc front g (word e v ++ back)),
      length-append (front ++ g) (word e v ++ back),
      length-append (word e v) back,
      length-word e v,
    ) in
    let fits : leb (p + 4) (length (front ++ (g ++ (word e v ++ back)))) ≡ true =
      le→leb _ _ (omega arith) in
    let here : take 4 (drop p (front ++ (g ++ (word e v ++ back)))) ≡ word e v =
      rw (← append_assoc front g (word e v ++ back))
        (window_at (front ++ g) (word e v) back p 4 (sym at_p) (sym (length-word e v))) in
    rw
      (
        read_aligned_lem 4 bswap32 _ (at-IsPlaced front (g ++ (word e v ++ back)) e small)
            (omega arith) (omega arith),
        fits,
        here,
        load-word e v h,
      )
      (ap (done (some v)) (
        moved front (g ++ word e v) back e (p + 4)
          (ap (◌++◌ front) (sym (append_assoc g (word e v) back)))
          (omega
            (arith, at_p, length-append front g, length-append g (word e v), length-word e v))))

read_terminated-at :
    (front s back : List ℕ) (e : ℕ)
    → IsSmall front (s ++ 0 ∷ back)
    → read_terminated (length s) (at front (s ++ 0 ∷ back) e)
      ≡ done (some s) (at (front ++ (s ++ 0 ∷ [])) back e)
read_terminated-at front s back e small =
    let size = length-append front (s ++ 0 ∷ back) in
    let rest = length-append s (0 ∷ back) in
    let zero_at : get_elem? (front ++ (s ++ 0 ∷ back)) (length front + length s) ≡ some 0 =
      rw (← append_assoc front s (0 ∷ back), ← length-append front s)
        (get_elem?-append (front ++ s) 0 back) in
    rw
      (
        read_terminated_lem (length s) 0 (at front (s ++ 0 ∷ back) e) (omega arith) zero_at,
        window_at front s (0 ∷ back) (length front) (length s) refl refl,
      )
      (ap (done (some s)) (
        moved front (s ++ 0 ∷ []) back e _ (ap (◌++◌ front) (sym (append_assoc s (0 ∷ []) back)))
          (omega (arith, length-append s (0 ∷ [])))))

pub read_signature-at :
    (front s back : List ℕ) (e : ℕ)
    → length s < 256
    → IsSmall front (short_text s ++ back)
    → read_signature (at front (short_text s ++ back) e)
      ≡ done (some s) (at (front ++ short_text s) back e)
unfolding read_signature short_text
read_signature-at front s back e h small =
    let one = length s ∷ [] in
    let rest = s ++ 0 ∷ back in
    let small' : IsSmall front (length s ∷ rest) = rw (append_assoc s (0 ∷ []) back) at small in
    let small'' : IsSmall (front ++ one) rest = rw (append_assoc front one rest) small' in
    let sizes = length-append (front ++ one) rest in
    let fits : leb ((length (front ++ one) + (length s + 1)) % size_mod)
          (length ((front ++ one) ++ rest))
        ≡ true =
      le→leb _ _ (omega (arith, length-append s (0 ∷ back))) in
    rw (
      append_assoc s (0 ∷ []) back,
      read_uint8-at front rest e (length s) small',
      ◌>>=◌,
      fits,
      read_terminated-at (front ++ one) s back e small'',
      append_assoc front one (s ++ 0 ∷ []),
    )

pub read_string-at :
    (front s back : List ℕ) (e : ℕ)
    → length s < 0xFFFFFFFF
    → IsSmall front (gap 4 (length front) ++ (text e s ++ back))
    → read_string (at front (gap 4 (length front) ++ (text e s ++ back)) e)
      ≡ done (some s) (at (front ++ (gap 4 (length front) ++ text e s)) back e)
unfolding read_string text
read_string-at front s back e h small =
    let head = gap 4 (length front) ++ word e (length s) in
    let rest = s ++ 0 ∷ back in
    let split : gap 4 (length front) ++ (text e s ++ back)
        ≡ gap 4 (length front) ++ (word e (length s) ++ rest) =
      ap (◌++◌ (gap 4 (length front))) (simp append_assoc) in
    let regroup : (front ++ head) ++ rest
        ≡ front ++ (gap 4 (length front) ++ (word e (length s) ++ rest)) =
      simp append_assoc in
    let small' : IsSmall front (gap 4 (length front) ++ (word e (length s) ++ rest)) =
      rw split at small in
    let small'' : IsSmall (front ++ head) rest = rw regroup small' in
    let sizes = length-append (front ++ head) rest in
    let wrap : (length s + 1) % 2 ^ 32 ≡ length s + 1 = omega arith in
    let fits : leb ((length (front ++ head) + (length s + 1)) % size_mod)
          (length ((front ++ head) ++ rest))
        ≡ true =
      le→leb _ _ (omega (arith, length-append s (0 ∷ back))) in
    rw
      (
        split,
        read_uint32-at front rest e (length s) (omega arith) small',
        ◌>>=◌,
        wrap,
        fits,
        read_terminated-at (front ++ head) s back e small'',
      )
      (ap (λ (bs : List ℕ). done (some s) (at bs back e)) (simp append_assoc))

pub align-at :
    (n : ℕ) (front back : List ℕ) (e : ℕ)
    → 0 < n
    → n ≤ 8
    → IsSmall front (gap n (length front) ++ back)
    → align n (at front (gap n (length front) ++ back) e)
      ≡ done true (at (front ++ gap n (length front)) back e)
align-at n front back e lo hi small =
    let g = gap n (length front) in
    let at_p : length front + length g ≡ up n (length front) = length-gap n (length front) lo in
    let fits : leb (up n (length front)) (length (front ++ (g ++ back))) ≡ true =
      le→leb _ _ (omega (arith, length-append front (g ++ back), length-append g back)) in
    rw (align_lem n _ (at-IsPlaced front (g ++ back) e small) lo hi, fits)
      (ap (done true) (moved front g back e _ refl (sym at_p)))
