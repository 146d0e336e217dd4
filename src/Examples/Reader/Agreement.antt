-- ===== src/Examples/Reader/Agreement.antt =====
-- The reader of examples/dbus/dbus-message.h against the library's of dbus/message.cpp.
use firmir.Base.{
  ℕ, ◌+◌, ◌%◌, ◌^◌, ◌≤◌, ◌<◌, ◌≡◌, refl, arith, true, false, none, length, get_elem?,
  get_elem?-some, take, drop, leb, ◌==◌, if◌then◌else◌, Bool-cases, Option-cases, inl, inr, leb→le,
}
use firmir.Dbus.Wire.{in_order, size_mod, load, bswap32}
use firmir.Dbus.Message.Layout.{up}
use firmir.Dbus.Message.Reader
use firmir.Dbus.Message.Reader.{Reader, out_of_bounds, bad_optional_access, out_of_fuel}
use firmir.Dbus.Message.Reader.Safety.{
  IsPlaced, IsValid, IsAhead, IsAhead-IsValid, read_aligned_lem, read_uint8-IsSafe,
  read_uint32-IsSafe,
}
use firmir.Dbus.Message.Reader.Strings.{read_uint8-IsByte}
use firmir.Examples.Reader.{
  done, threw, ◌>>=◌, ◌>>◌, align, check, window, current, get_uint, read_u8, read_aligned,
  read_u32, read_terminated, read_string, read_signature, align_past_end, read_past_end, DbusError,
  string_not_terminated, signature_not_terminated,
}
use firmir.Examples.Reader.Agrees.{Agrees, bind-Agrees}

pub align_lem :
    (n : ℕ) (r : Reader)
    → IsPlaced r
    → 0 < n
    → n ≤ 8
    → align n r ≡ (
        if leb (up n r.pos) (length r.bytes)
        then done tt (record r { pos = up n r.pos })
        else threw align_past_end)
unfolding align up
align_lem n r v lo hi = ground arith

pub check_lem :
    (n : ℕ) (r : Reader)
    → IsPlaced r
    → n ≤ 2 ^ 32
    → check n r ≡ (if leb (r.pos + n) (length r.bytes) then done tt r else threw read_past_end)
unfolding check
check_lem n r v h = ground arith

get_uint_lem :
    (n : ℕ) (swap : ℕ → ℕ) (r : Reader)
    → leb (r.pos + n) (length r.bytes) ≡ true
    → get_uint n swap r ≡ done (in_order swap r.endian (load (take n (drop r.pos r.bytes)))) r
unfolding get_uint window
get_uint_lem n swap r h = rw (h, get_uint, window, ◌>>=◌)

pub read_u8-Agrees : (r : Reader) → IsPlaced r → Agrees (Reader.read_uint8 r) (read_u8 r)
unfolding read_u8 Reader.read_uint8 current Reader.current
read_u8-Agrees r v =
    let same : (r.pos + 1) % size_mod ≡ r.pos + 1 = omega (arith, v.small, v.inside) in
    elim (Bool-cases (leb (r.pos + 1) (length r.bytes))) [
      | inr f ↦ rw (check_lem 1 r v (omega arith), same, f, ◌>>=◌) tt
      | inl t ↦
          let (b, e) = get_elem?-some r.bytes r.pos (omega (arith, leb→le _ _ t)) in
          rw
            (
              check_lem 1 r v (omega arith),
              same,
              t,
              ◌>>=◌,
              Reader.◌>>=◌,
              Reader.branch,
              Reader.current,
              current,
              e,
              ◌>>=◌,
            )
            (refl, refl)
    ]

-- A number, aligned.
pub read_aligned-Agrees :
    (n : ℕ) (swap : ℕ → ℕ) (r : Reader)
    → IsPlaced r
    → 0 < n
    → n ≤ 8
    → Agrees (Reader.read_aligned n (Reader.get_uint n swap) r) (read_aligned n swap r)
unfolding read_aligned
read_aligned-Agrees n swap r v lo hi = elim (Bool-cases (leb (up n r.pos) (length r.bytes))) [
  | inr f ↦
      let u : leb (up n r.pos + n) (length r.bytes) ≡ false = ground (arith, f) in
      rw (Reader.Safety.read_aligned_lem n swap r v lo hi, align_lem n r v lo hi, f, u, ◌>>=◌) tt
  | inl t ↦
      let p = up n r.pos in
      let v' : IsPlaced (record r { pos = p }) = record {
        inside = leb→le p (length r.bytes) t;
        small = v.small;
      } in
      elim (Bool-cases (leb (p + n) (length r.bytes))) [
        | inl u ↦
            rw
              (
                Reader.Safety.read_aligned_lem n swap r v lo hi,
                align_lem n r v lo hi,
                t,
                ◌>>=◌,
                check_lem n (record r { pos = p }) v' (omega arith),
                u,
                get_uint_lem n swap (record r { pos = p }) u,
              )
              (refl, refl)
        | inr u ↦
            rw
              (
                Reader.Safety.read_aligned_lem n swap r v lo hi,
                align_lem n r v lo hi,
                t,
                ◌>>=◌,
                check_lem n (record r { pos = p }) v' (omega arith),
                u,
              )
              tt
      ]
]

read_terminated-Agrees :
    (len : ℕ) (e : DbusError) (r : Reader)
    → Agrees (Reader.read_terminated len r) (read_terminated len e r)
unfolding read_terminated Reader.read_terminated window Reader.window current Reader.current
read_terminated-Agrees len e r = elim (Bool-cases (leb (r.pos + len) (length r.bytes))) [
  | inr f ↦ rw (f, ◌>>=◌, Reader.◌>>=◌) tt
  | inl t ↦ elim (Option-cases (get_elem? r.bytes (r.pos + len))) [
    | inl n ↦ rw (t, ◌>>=◌, Reader.◌>>=◌, current, Reader.current, n) tt
    | inr (z, q) ↦ elim (Bool-cases (z == 0)) [
      | inl y ↦ rw (t, ◌>>=◌, Reader.◌>>=◌, current, Reader.current, q, y) (refl, refl)
      | inr y ↦ rw (t, ◌>>=◌, Reader.◌>>=◌, current, Reader.current, q, y) tt
    ]
  ]
]

-- Behind the length of a string or signature.
tail-Agrees :
    (n len : ℕ) (e : DbusError) (r : Reader)
    → IsPlaced r
    → n ≤ 2 ^ 32
    → Agrees
        (Reader.◌>>=◌
          (Reader.check n)
          (λ enough. Reader.branch enough (Reader.read_terminated len) (Reader.pure none))
          r)
        ((check n >> read_terminated len e) r)
unfolding Reader.check
tail-Agrees n len e r v h =
    let same : (r.pos + n) % size_mod ≡ r.pos + n = omega (arith, v.small, v.inside) in
    elim (Bool-cases (leb (r.pos + n) (length r.bytes))) [
      | inl t ↦ rw (check_lem n r v h, same, t, ◌>>=◌) (read_terminated-Agrees len e r)
      | inr f ↦ rw (check_lem n r v h, same, f, ◌>>=◌) tt
    ]

pub read_u32-Agrees : (r : Reader) → IsPlaced r → Agrees (Reader.read_uint32 r) (read_u32 r)
unfolding read_u32 Reader.read_uint32 Reader.get_uint32
read_u32-Agrees r v = read_aligned-Agrees 4 bswap32 r v (omega arith) (omega arith)

pub read_string-Agrees : (r : Reader) → IsValid r → Agrees (Reader.read_string r) (read_string r)
unfolding read_string Reader.read_string
read_string-Agrees r v =
    bind-Agrees (λ a b. a ≡ b) Reader.read_uint32 read_u32 _ _ r (read_u32-Agrees r v.placed)
      (λ r' e. tt)
      (λ len r' e.
        let a : IsAhead r r' = rw e at (read_uint32-IsSafe r v) in
        tail-Agrees ((len + 1) % 2 ^ 32) len string_not_terminated r'
          ((IsAhead-IsValid r r' v a).placed) (omega arith))

pub read_signature-Agrees :
    (r : Reader) → IsValid r → Agrees (Reader.read_signature r) (read_signature r)
unfolding read_signature Reader.read_signature
read_signature-Agrees r v =
    bind-Agrees (λ a b. a ≡ b) Reader.read_uint8 read_u8 _ _ r (read_u8-Agrees r v.placed)
      (λ r' e. tt)
      (λ len r' e.
        let a : IsAhead r r' = rw e at (read_uint8-IsSafe r v) in
        tail-Agrees (len + 1) len signature_not_terminated r' ((IsAhead-IsValid r r' v a).placed)
          (omega (arith, read_uint8-IsByte r r' len v e)))
