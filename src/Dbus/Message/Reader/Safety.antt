-- ===== src/Dbus/Message/Reader/Safety.antt =====
-- `MessagePrivate::Reader` of dbus/message.cpp: where its reads leave the position.
use firmir.Base.{
  All, le→leb, leb→le, ℕ, ◌+◌, ◌%◌, ◌^◌, ◌≤◌, ◌<◌, ◌≡◌, refl, ◌∙◌, arith, true, false, none, some,
  length, take, drop, leb, if◌then◌else◌, get_elem?-some, Bool-cases, inl, inr,
}
use firmir.Dbus.Wire.{in_order, IsByte, size_mod, load, bswap16, bswap32, bswap64}
use firmir.Dbus.Message.Layout.{up}
use firmir.Dbus.Message.Reader.{
  Reader, Outcome, M, done, stopped, ◌>>=◌, align, window, current, get_uint, read_uint8,
  read_uint16, read_uint32, read_uint64, read_aligned,
}

-- The position is inside the buffer, and a buffer is smaller than half the address space.
pub record IsPlaced (r : Reader) : Type 0 where
  pub inside : r.pos ≤ length r.bytes
  pub small : length r.bytes < 2 ^ 63

-- Such a reader over a buffer of bytes.
pub record IsValid (r : Reader) : Type 0 where
  pub placed : IsPlaced r
  pub octets : All IsByte r.bytes

-- `r'` is `r` moved forward inside the same buffer.
pub record IsAhead (r r' : Reader) : Type 0 where
  pub bytes : r'.bytes ≡ r.bytes
  pub endian : r'.endian ≡ r.endian
  pub forward : r.pos ≤ r'.pos
  pub inside : r'.pos ≤ length r.bytes

-- The run ends with a result, and the reader ahead.
abbrev pub Within {ℓ} : {A : Type ℓ} → Reader → Outcome A → Type 0
Within r (done a r') = IsAhead r r'
Within r (stopped s) = ⊥

abbrev pub IsSafe {ℓ} : {A : Type ℓ} → M A → Type 0
IsSafe m = (r : Reader) → IsValid r → Within r (m r)

pub IsAhead-IsValid : (r r' : Reader) → IsValid r → IsAhead r r' → IsValid r'
IsAhead-IsValid r r' v a = record {
  placed = record { inside = rw (a.bytes) a.inside; small = rw (a.bytes) v.placed.small };
  octets = rw (a.bytes) v.octets;
}

pub IsAhead-trans : (r s t : Reader) → IsValid r → IsAhead r s → IsAhead s t → IsAhead r t
IsAhead-trans r s t v a b = record {
  bytes = b.bytes ∙ a.bytes;
  endian = b.endian ∙ a.endian;
  forward = omega arith;
  inside = rw (← a.bytes) b.inside;
}

module _ {ℓ} {A : Type ℓ} where
  pub Within-trans :
      (r r' : Reader) (o : Outcome A) → IsValid r → IsAhead r r' → Within r' o → Within r o
  Within-trans r r' (done a r'') v h w = IsAhead-trans r r' r'' v h w
  Within-trans r r' (stopped s) v h w = w

module _ {ℓ κ} {A : Type ℓ} {B : Type κ} where
  continue_Within :
      (r : Reader) (f : A → M B) (o : Outcome A)
      → IsValid r
      → Within r o
      → ((a : A) (r' : Reader) → o ≡ done a r' → IsValid r' → Within r' (f a r'))
      → Within r (elim o [ done a r' ↦ f a r' | stopped s ↦ stopped s ])
  continue_Within r f (done a r') v w k =
      Within-trans r r' (f a r') v w (k a r' refl (IsAhead-IsValid r r' v w))
  continue_Within r f (stopped s) v w k = w

  -- The code behind a read starts from a valid reader.
  pub bind-Within :
      (m : M A) (f : A → M B) (r : Reader)
      → IsValid r
      → Within r (m r)
      → ((a : A) (r' : Reader) → m r ≡ done a r' → IsValid r' → Within r' (f a r'))
      → Within r ((m >>= f) r)
  bind-Within m f r v w k = continue_Within r f (m r) v w k

pub IsAhead-same : (r : Reader) → IsValid r → IsAhead r r
IsAhead-same r v = record {
  bytes = refl;
  endian = refl;
  forward = omega arith;
  inside = v.placed.inside;
}

get_uint_lem :
    (n : ℕ) (swap : ℕ → ℕ) (r : Reader)
    → r.pos + n ≤ length r.bytes
    → get_uint n swap r
      ≡ done
          (in_order swap r.endian (load (take n (drop r.pos r.bytes))))
          (record r { pos = r.pos + n })
unfolding get_uint window
get_uint_lem n swap r h = rw (le→leb (r.pos + n) (length r.bytes) h, get_uint, window, ◌>>=◌)

pub read_uint8-IsSafe : IsSafe read_uint8
unfolding read_uint8 current
read_uint8-IsSafe r v = ground (arith, get_elem?-some r.bytes r.pos)

pub align_lem :
    (n : ℕ) (r : Reader)
    → IsPlaced r
    → 0 < n
    → n ≤ 8
    → align n r ≡ (
        if leb (up n r.pos) (length r.bytes)
        then done true (record r { pos = up n r.pos })
        else done false r)
unfolding align up
align_lem n r v lo hi = ground arith

-- An aligned read from a position inside the buffer: the number at the next multiple of `n`, in the
-- byte order of the reader, if it ends inside the buffer; else nothing, and the reader is moved over the
-- padding at most. Here `n` is 1 to 8.
pub read_aligned_lem :
    (n : ℕ) (swap : ℕ → ℕ) (r : Reader)
    → IsPlaced r
    → 0 < n
    → n ≤ 8
    → read_aligned n (get_uint n swap) r ≡ (
        if leb (up n r.pos + n) (length r.bytes)
        then done
            (some (in_order swap r.endian (load (take n (drop (up n r.pos) r.bytes)))))
            (record r { pos = up n r.pos + n })
        else done none
            (record r { pos = if leb (up n r.pos) (length r.bytes) then up n r.pos else r.pos }))
unfolding read_aligned
read_aligned_lem n swap r v lo hi = elim (Bool-cases (leb (up n r.pos) (length r.bytes))) [
  | inl t ↦
      let p = up n r.pos in
      let same : (p + n) % size_mod ≡ p + n = omega (arith, leb→le p (length r.bytes) t, v.small) in
      elim (Bool-cases (leb (p + n) (length r.bytes))) [
        | inl u ↦ rw (
          align_lem n r v lo hi,
          t,
          read_aligned,
          ◌>>=◌,
          same,
          u,
          get_uint_lem n swap (record r { pos = p }) (leb→le _ _ u),
        )
        | inr u ↦ rw (align_lem n r v lo hi, t, read_aligned, ◌>>=◌, same, u)
      ]
  | inr f ↦
      let u : leb (up n r.pos + n) (length r.bytes) ≡ false = ground arith in
      rw (align_lem n r v lo hi, f, u, read_aligned, ◌>>=◌)
]

read_aligned-IsSafe :
    (n : ℕ) (swap : ℕ → ℕ) → 0 < n → n ≤ 8 → IsSafe (read_aligned n (get_uint n swap))
unfolding up
read_aligned-IsSafe n swap lo hi r v = rw (read_aligned_lem n swap r v.placed lo hi) (ground arith)

pub read_uint16-IsSafe : IsSafe read_uint16
unfolding read_uint16
read_uint16-IsSafe = read_aligned-IsSafe 2 bswap16 (omega arith) (omega arith)

pub read_uint32-IsSafe : IsSafe read_uint32
unfolding read_uint32
read_uint32-IsSafe = read_aligned-IsSafe 4 bswap32 (omega arith) (omega arith)

pub read_uint64-IsSafe : IsSafe read_uint64
unfolding read_uint64
read_uint64-IsSafe = read_aligned-IsSafe 8 bswap64 (omega arith) (omega arith)
