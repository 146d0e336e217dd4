-- ===== src/Dbus/Message/Header/FixedSafety.antt =====
-- The constructor of `FixedHeader` in dbus/message.cpp, on any bytes.
use firmir.Base.{
  ℕ, ◌+◌, ◌%◌, ◌≤◌, ◌<◌, ◌≡◌, refl, ◌∙◌, arith, Bool, true, false, some, length, take, drop,
  get_elem?-some, le→ltb_false, leb, le→leb, ◌==◌,
}
use firmir.Dbus.Wire.{IsUint32, in_order, load, bswap32}
use firmir.Dbus.Message.Layout.{up}
use firmir.Dbus.Message.Reader.{
  Reader, Outcome, done, ◌>>=◌, branch, pure, current, read_uint8, read_uint32,
}
use firmir.Dbus.Message.Reader.Safety.{IsPlaced, IsValid, read_aligned_lem}
use firmir.Dbus.Message.Reader.Strings.{read_uint32-IsUint32}
use firmir.Dbus.Message.Header.{FixedHeader, default_fixed, value, read_fixed}

abbrev pub moved : Reader → ℕ → Reader
moved r n = record r { pos = n }

byte_read :
    (r : Reader) (n : ℕ)
    → IsPlaced r
    → r.pos < length r.bytes
    → n ≡ r.pos + 1
    → (b : ℕ) × (read_uint8 r ≡ done (some b) (moved r n))
unfolding read_uint8 current
byte_read r n p l q = let (b, e) = get_elem?-some r.bytes r.pos l in (b, ground (arith, e, q))

word_read :
    (r : Reader) (n : ℕ)
    → IsValid r
    → r.pos % 4 ≡ 0
    → r.pos + 4 ≤ length r.bytes
    → n ≡ r.pos + 4
    → (v : ℕ) × (read_uint32 r ≡ done (some v) (moved r n)) × IsUint32 v
unfolding read_uint32 up
word_read r n w a l q =
    let v = in_order bswap32 r.endian (load (take 4 (drop (up 4 r.pos) r.bytes))) in
    let e : read_uint32 r ≡ done (some v) (moved r n) =
      let here : up 4 r.pos ≡ r.pos = ground (arith, a) in
      let fits : leb (up 4 r.pos + 4) (length r.bytes) ≡ true = le→leb _ _ (omega (arith, here)) in
      let ahead : up 4 r.pos + 4 ≡ n = omega (arith, here) in
      read_aligned_lem 4 bswap32 r w.placed (omega arith) (omega arith) ∙ rw (fits, ahead) in
    (v, e, read_uint32-IsUint32 r (moved r n) v w e)

moved-IsValid : (r : Reader) (n : ℕ) → IsValid r → n ≤ length r.bytes → IsValid (moved r n)
moved-IsValid r n w l = record {
  placed = record { inside = l; small = w.placed.small };
  octets = w.octets;
}

-- What the constructor of the fixed header leaves.
pub record Fixed (r : Reader) (o : Outcome FixedHeader) : Type 0 where
  pub header : FixedHeader
  pub pos : ℕ
  pub result : o ≡ done header (moved r pos)
  pub bounded : pos ≤ 16
  pub taken : header.valid ≡ true → pos ≡ 16
  pub body : IsUint32 header.body_len

Fixed-back : (r : Reader) (n : ℕ) (o : Outcome FixedHeader) → Fixed (moved r n) o → Fixed r o
Fixed-back r n o x = record {
  header = x.header;
  pos = x.pos;
  result = x.result;
  bounded = x.bounded;
  taken = x.taken;
  body = x.body;
}

words :
    (h : FixedHeader) (r : Reader)
    → IsValid r
    → r.pos ≡ 4
    → 16 ≤ length r.bytes
    → IsUint32 h.body_len
    → h.valid ≡ false
    → (b : Bool)
    → Fixed r (
        branch b
          (do
            body_len ← value read_uint32
            serial ← value read_uint32
            fields_len ← value read_uint32
            pure (record h {
              body_len = body_len;
              serial = serial;
              fields_len = fields_len;
              valid = true;
            }))
          (pure h)
          r)
words h r w p l u i false = record {
  header = h;
  pos = r.pos;
  result = refl;
  bounded = omega arith;
  taken = λ v. absurd (cc (i, v));
  body = u;
}
words h r w p l u i true =
    let (b, e1, u1) = word_read r 8 w (omega arith) (omega arith) (omega arith) in
    let w8 = moved-IsValid r 8 w (omega arith) in
    let (s, e2, u2) = word_read (moved r 8) 12 w8 (omega arith) (omega arith) (omega arith) in
    let w12 = moved-IsValid r 12 w (omega arith) in
    let (f, e3, u3) = word_read (moved r 12) 16 w12 (omega arith) (omega arith) (omega arith) in
    record {
      header = record h { body_len = b; serial = s; fields_len = f; valid = true };
      pos = 16;
      result = rw (e1, ◌>>=◌, e2, ◌>>=◌, e3, ◌>>=◌);
      bounded = omega arith;
      taken = λ v. refl;
      body = u1;
    }

pub read_fixed-Fixed :
    (r : Reader) → IsValid r → r.pos ≡ 0 → 16 ≤ length r.bytes → Fixed r (read_fixed r)
unfolding read_fixed
read_fixed-Fixed r w p l =
    let (b0, e0) = byte_read r 1 w.placed (omega arith) (omega arith) in
    let w1 = moved-IsValid r 1 w (omega arith) in
    let (b1, e1) = byte_read (moved r 1) 2 w1.placed (omega arith) (omega arith) in
    let w2 = moved-IsValid r 2 w (omega arith) in
    let (b2, e2) = byte_read (moved r 2) 3 w2.placed (omega arith) (omega arith) in
    let w3 = moved-IsValid r 3 w (omega arith) in
    let (b3, e3) = byte_read (moved r 3) 4 w3.placed (omega arith) (omega arith) in
    let w4 = moved-IsValid r 4 w (omega arith) in
    rw (le→ltb_false (length r.bytes) 16 l, e0, ◌>>=◌, e1, ◌>>=◌, e2, ◌>>=◌, e3, ◌>>=◌)
      (Fixed-back r 4 _ (
        words (record default_fixed { endian = b0; type = b1; flags = b2; version = b3 })
          (moved r 4) w4 refl l (omega arith) refl (b3 == 1)))
