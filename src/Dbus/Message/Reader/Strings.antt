-- ===== src/Dbus/Message/Reader/Strings.antt =====
-- `MessagePrivate::Reader` of dbus/message.cpp: where the reads of strings leave the position.
use firmir.Base.{
  All, All-get_elem?, All-take, All-drop, ap, le→leb, lt→leb_false, length-take, ℕ, ◌+◌, ◌%◌, ◌^◌,
  ◌≤◌, ◌<◌, ◌≡◌, refl, arith, true, false, Option, none, some, List, length, get_elem?, take, drop,
  leb, ◌==◌, if◌then◌else◌, get_elem?-some, ◌≢◌,
}
use firmir.Dbus.Wire.{in_order, IsByte, IsUint32, size_mod, load, bswap32}
use native.Mathlib.Nat.{le_trans, pow-le-pow_right}
use firmir.Dbus.Wire.Swap.{load-lt, bswap32-lt}
use firmir.Dbus.Message.Layout.{up}
use firmir.Dbus.Message.Reader.{
  Reader, branch, done, stopped, pure, ◌>>=◌, check, window, current, read_uint8, read_uint32,
  with_value, read_terminated, read_string, read_signature, out_of_bounds,
}
use firmir.Dbus.Message.Reader.Safety.{
  IsValid, IsAhead, IsAhead-same, IsAhead-IsValid, Within, bind-Within, read_uint8-IsSafe,
  read_uint32-IsSafe, read_aligned_lem,
}

-- What `read_terminated` does where the string and the byte behind it are in the buffer.
pub read_terminated_lem :
    (len z : ℕ) (r : Reader)
    → r.pos + len + 1 ≤ length r.bytes
    → get_elem? r.bytes (r.pos + len) ≡ some z
    → read_terminated len r ≡ (
        if z == 0
        then done (some (take len (drop r.pos r.bytes))) (record r { pos = r.pos + len + 1 })
        else done none (record r { pos = r.pos + len }))
unfolding read_terminated window current
read_terminated_lem len z r h e =
    rw
      (
        le→leb (r.pos + len) (length r.bytes) (omega arith),
        e,
        read_terminated,
        window,
        current,
        ◌>>=◌,
      )
      (ground arith)

pub read_terminated-Within :
    (len : ℕ) (r : Reader)
    → IsValid r
    → r.pos + len + 1 ≤ length r.bytes
    → Within r (read_terminated len r)
read_terminated-Within len r v h =
    let (z, e) = get_elem?-some r.bytes (r.pos + len) (omega arith) in
    rw (read_terminated_lem len z r h e) (ground arith)

pub read_uint8-IsByte :
    (r r' : Reader) (b : ℕ) → IsValid r → read_uint8 r ≡ done (some b) r' → IsByte b
unfolding read_uint8 current
read_uint8-IsByte r r' b v e =
    ground
      (arith, get_elem?-some r.bytes r.pos, All-get_elem? IsByte r.bytes r.pos {a = b} v.octets)

-- Behind the length word of a string or signature.
pub terminated_tail :
    (n : ℕ) (len : ℕ) (r : Reader)
    → IsValid r
    → n ≡ len + 1
    → n ≤ 2 ^ 32
    → Within r ((check n >>= λ enough. branch enough (read_terminated len) (pure none)) r)
unfolding check
terminated_tail n len r v e h = ground (arith, read_terminated-Within len r v)

-- Reading a signature ends with a result, with the reader in the same buffer and not behind where it
-- was, from any position in any buffer of bytes that is smaller than 2 ^ 63.
pub read_signature-Within : (r : Reader) → IsValid r → Within r (read_signature r)
unfolding read_signature
read_signature-Within r v = bind-Within read_uint8 _ r v (read_uint8-IsSafe r v) tail
  where
    tail :
        (o : Option ℕ) (r' : Reader)
        → read_uint8 r ≡ done o r'
        → IsValid r'
        → Within r' (
            with_value o
              (λ len. check (len + 1) >>= λ enough. branch enough (read_terminated len) (pure none))
              r')
    tail none r' e w = IsAhead-same r' w
    tail (some len) r' e w =
        terminated_tail (len + 1) len r' w refl (omega (arith, read_uint8-IsByte r r' len v e))

in_order32 : (e n : ℕ) → IsUint32 n → IsUint32 (in_order bswap32 e n)
unfolding in_order
in_order32 e n h = ground (arith, bswap32-lt n)

word-IsUint32 : (p : ℕ) (bs : List ℕ) → All IsByte bs → IsUint32 (load (take 4 (drop p bs)))
word-IsUint32 p bs h =
    let part = take 4 (drop p bs) in
    le_trans (load-lt part (All-take IsByte 4 (drop p bs) (All-drop IsByte p bs h))) (
      pow-le-pow_right {n = 256} (omega arith) {i = length part} {j = 4}
        (omega (arith, length-take 4 (drop p bs))))

pub read_uint32-IsUint32 :
    (r r' : Reader) (n : ℕ) → IsValid r → read_uint32 r ≡ done (some n) r' → IsUint32 n
unfolding read_uint32
read_uint32-IsUint32 r r' n v e = ground (
  arith,
  read_aligned_lem 4 bswap32 r v.placed (omega arith) (omega arith),
  in_order32 r.endian (load (take 4 (drop (up 4 r.pos) r.bytes))),
  word-IsUint32 (up 4 r.pos) r.bytes v.octets,
)

-- A string length of 2 ^ 32 - 1 makes the sum in the source's test wrap to 0.
abbrev pub NoWrap : Reader → Type 0
NoWrap r = (r' : Reader) → read_uint32 r ≢ done (some 0xFFFFFFFF) r'

-- Reading a string ends with a result, with the reader in the same buffer and not behind where it
-- was, from any position in any buffer of bytes that is smaller than 2 ^ 63, unless the length that
-- stands there is 2 ^ 32 - 1.
pub read_string-Within : (r : Reader) → IsValid r → NoWrap r → Within r (read_string r)
unfolding read_string
read_string-Within r v n = bind-Within read_uint32 _ r v (read_uint32-IsSafe r v) tail
  where
    tail :
        (o : Option ℕ) (r' : Reader)
        → read_uint32 r ≡ done o r'
        → IsValid r'
        → Within r' (
            with_value o
              (λ len. check ((len + 1) % 2 ^ 32) >>= λ enough.
                branch enough (read_terminated len) (pure none))
              r')
    tail none r' e w = IsAhead-same r' w
    tail (some len) r' e w =
        let fits : IsUint32 len = read_uint32-IsUint32 r r' len v e in
        let small : len ≢ 0xFFFFFFFF = λ p. n r' (rw (← p) e) in
        terminated_tail ((len + 1) % 2 ^ 32) len r' w (omega arith) (omega arith)

-- A string length of 2 ^ 32 - 1 passes the source's test in every buffer that is shorter than that,
-- and the copy runs over the buffer's end.
pub read_string_overrun :
    (r r' : Reader)
    → IsValid r
    → read_uint32 r ≡ done (some 0xFFFFFFFF) r'
    → length r.bytes < 0xFFFFFFFF
    → read_string r ≡ stopped out_of_bounds
unfolding read_string read_terminated window
read_string_overrun r r' v e h =
    let a : IsAhead r r' = rw e at (read_uint32-IsSafe r v) in
    let w : IsValid r' = IsAhead-IsValid r r' v a in
    let pass : leb ((r'.pos + 0) % size_mod) (length r'.bytes) ≡ true =
      le→leb _ _ (omega (arith, w.placed.inside, w.placed.small)) in
    let over : leb (r'.pos + 0xFFFFFFFF) (length r'.bytes) ≡ false =
      lt→leb_false _ _ (omega (arith, ap length a.bytes)) in
    rw (e, ◌>>=◌, pass, over, read_terminated, window, ◌>>=◌)
