-- ===== src/Examples/Reader/Safety.antt =====
-- The class `Reader` of examples/dbus/dbus-message.h on any bytes.
use firmir.Base.{
  ℕ, ◌+◌, ◌%◌, ◌≤◌, ◌≡◌, refl, arith, Option, none, some, length, ltb, Bool-cases, inl, inr, subst,
}
use firmir.Dbus.Wire.{IsUint32, size_mod, bswap32}
use firmir.Dbus.Message.Layout.{up}
use firmir.Dbus.Message.Reader
use firmir.Dbus.Message.Reader.{Reader, out_of_bounds, bad_optional_access, out_of_fuel}
use firmir.Dbus.Message.Reader.Safety.{
  IsValid, IsAhead, IsAhead-IsValid, IsAhead-same, IsAhead-trans, read_uint32-IsSafe,
  read_aligned_lem,
}
use firmir.Dbus.Message.Reader.Strings.{read_uint32-IsUint32}
use firmir.Dbus.Message.Reader.Overrun.{HasWrap, HasWrap-back, Ends, Within-Ends}
use firmir.Examples.Reader.{
  Outcome, M, done, threw, overran, ◌>>=◌, ◌>>◌, align, seek, read_u32, read_array_bounds,
}
use firmir.Examples.Reader as E
use firmir.Examples.Reader.Agrees.{AgreesBy, Agrees}
use firmir.Examples.Reader.Agreement.{align_lem, read_u32-Agrees}

-- The run ends with a result, and the reader ahead, or with an exception; or it leaves the buffer over
-- a length of 2 ^ 32 - 1.
abbrev pub Finishes {ℓ} : {A : Type ℓ} → ℕ → Reader → Outcome A → Type 0
Finishes low r (done a r') = IsAhead r r'
Finishes low r (threw e) = Unit {0}
Finishes low r overran = HasWrap low r
Finishes low r E.out_of_fuel = ⊥

pub Agrees-Finishes :
    (low : ℕ) {A B : Type 0} (R : A → B → Type 0) (r : Reader) (x : Reader.Outcome (Option A))
    (y : Outcome B)
    → Ends low r x
    → AgreesBy R x y
    → Finishes low r y
Agrees-Finishes low R r (Reader.done (some a) r') (done b r'') w (p, q) = rw (← q) w
Agrees-Finishes low R r (Reader.done none r') (threw e) w h = tt
Agrees-Finishes low R r (Reader.stopped out_of_bounds) overran w h = w
Agrees-Finishes low R r (Reader.done (some a) r') (threw e) w h = absurd h
Agrees-Finishes low R r (Reader.done (some a) r') overran w h = absurd h
Agrees-Finishes low R r (Reader.done (some a) r') E.out_of_fuel w h = absurd h
Agrees-Finishes low R r (Reader.done none r') (done b r'') w h = absurd h
Agrees-Finishes low R r (Reader.done none r') overran w h = absurd h
Agrees-Finishes low R r (Reader.done none r') E.out_of_fuel w h = absurd h
Agrees-Finishes low R r (Reader.stopped out_of_bounds) (done b r'') w h = absurd h
Agrees-Finishes low R r (Reader.stopped out_of_bounds) (threw e) w h = absurd h
Agrees-Finishes low R r (Reader.stopped out_of_bounds) E.out_of_fuel w h = absurd h
Agrees-Finishes low R r (Reader.stopped bad_optional_access) y w h = absurd w
Agrees-Finishes low R r (Reader.stopped out_of_fuel) y w h = absurd w

-- A value of the one is that of the other.
pub done-Agrees :
    {A : Type 0} (x : Reader.Outcome (Option A)) (y : Outcome A) (a : A) (r : Reader)
    → y ≡ done a r
    → Agrees x y
    → x ≡ Reader.done (some a) r
done-Agrees {A} x y a r e h = go x (rw e at h)
  where
    go : (x : Reader.Outcome (Option A)) → Agrees x (done a r) → x ≡ Reader.done (some a) r
    go (Reader.done (some b) r') (p, q) = rw (p, q)
    go (Reader.done none r') h = absurd h
    go (Reader.stopped out_of_bounds) h = absurd h
    go (Reader.stopped bad_optional_access) h = absurd h
    go (Reader.stopped out_of_fuel) h = absurd h

module _ {ℓ} {A : Type ℓ} where
  pub Finishes-back :
      (low : ℕ) (r r' : Reader) (o : Outcome A)
      → IsValid r
      → IsAhead r r'
      → Finishes low r' o
      → Finishes low r o
  Finishes-back low r r' (done a r'') v h w = IsAhead-trans r r' r'' v h w
  Finishes-back low r r' (threw e) v h w = tt
  Finishes-back low r r' overran v h w = HasWrap-back low r r' v h w
  Finishes-back low r r' E.out_of_fuel v h w = w

module _ {ℓ κ} {A : Type ℓ} {B : Type κ} where
  continue_Finishes :
      (low : ℕ) (r : Reader) (f : A → M B) (o : Outcome A)
      → IsValid r
      → Finishes low r o
      → ((a : A) (r' : Reader) → o ≡ done a r' → IsValid r' → Finishes low r' (f a r'))
      → Finishes low r (elim o [
        | done a r' ↦ f a r'
        | threw e ↦ threw e
        | overran ↦ overran
        | E.out_of_fuel ↦ E.out_of_fuel
      ])
  continue_Finishes low r f (done a r') v w k =
      Finishes-back low r r' (f a r') v w (k a r' refl (IsAhead-IsValid r r' v w))
  continue_Finishes low r f (threw e) v w k = tt
  continue_Finishes low r f overran v w k = w
  continue_Finishes low r f E.out_of_fuel v w k = w

  pub bind-Finishes :
      (low : ℕ) (m : M A) (f : A → M B) (r : Reader)
      → IsValid r
      → Finishes low r (m r)
      → ((a : A) (r' : Reader) → m r ≡ done a r' → IsValid r' → Finishes low r' (f a r'))
      → Finishes low r ((m >>= f) r)
  bind-Finishes low m f r v w k = continue_Finishes low r f (m r) v w k

  -- The two parts of a run that has a result.
  continue-done :
      (f : A → M B) (o : Outcome A) (b : B) (r' : Reader)
      → (elim o [
        | done a r ↦ f a r
        | threw e ↦ threw e
        | overran ↦ overran
        | E.out_of_fuel ↦ E.out_of_fuel
      ])
        ≡ done b r'
      → (a : A) × (r1 : Reader) × (o ≡ done a r1) × (f a r1 ≡ done b r')
  continue-done f (done a r) b r' e = (a, r, refl, e)
  continue-done f (threw x) b r' e = absurd (cc e)
  continue-done f overran b r' e = absurd (cc e)
  continue-done f E.out_of_fuel b r' e = absurd (cc e)

  pub bind-done :
      (m : M A) (f : A → M B) (r : Reader) (b : B) (r' : Reader)
      → (m >>= f) r ≡ done b r'
      → (a : A) × (r1 : Reader) × (m r ≡ done a r1) × (f a r1 ≡ done b r')
  bind-done m f r b r' e = continue-done f (m r) b r' e

pub align-Finishes : (low : ℕ) (r : Reader) → IsValid r → Finishes low r (align 8 r)
unfolding up
align-Finishes low r v = rw (align_lem 8 r v.placed (omega arith) (omega arith)) (ground arith)

pub seek-Finishes :
    (low : ℕ) (p : ℕ) (r : Reader) → IsValid r → r.pos ≤ p → Finishes low r (seek p r)
unfolding seek
seek-Finishes low p r v h = ground arith

pub read_u32-Finishes : (low : ℕ) (r : Reader) → IsValid r → Finishes low r (read_u32 r)
read_u32-Finishes low r v =
    Agrees-Finishes low (λ a b. a ≡ b) r _ _ (Within-Ends low r _ (read_uint32-IsSafe r v))
      (read_u32-Agrees r v.placed)

pub read_u32-IsUint32 : (r r' : Reader) (n : ℕ) → IsValid r → read_u32 r ≡ done n r' → IsUint32 n
read_u32-IsUint32 r r' n v e =
    read_uint32-IsUint32 r r' n v (done-Agrees _ _ n r' e (read_u32-Agrees r v.placed))

pub read_array_bounds-Finishes :
    (low : ℕ) (r : Reader) → IsValid r → Finishes low r (read_array_bounds 8 r)
unfolding read_array_bounds
read_array_bounds-Finishes low r v =
    bind-Finishes low read_u32 _ r v (read_u32-Finishes low r v) (λ len r1 e w.
      bind-Finishes low (align 8) _ r1 w (align-Finishes low r1 w) (λ u r2 e' w'.
        elim (Bool-cases (ltb (length r2.bytes) ((r2.pos + len) % size_mod))) [
          | inl t ↦ rw t tt
          | inr f ↦ rw f (IsAhead-same r2 w')
        ]))

abbrev StandsAt : {A : Type 0} → ℕ → Outcome A → Type 0
StandsAt p (done a r) = r.pos ≡ p
StandsAt p (threw e) = ⊥
StandsAt p overran = ⊥
StandsAt p E.out_of_fuel = ⊥

-- A number is behind where the reader was.
abbrev Forward : Reader → Reader.Outcome (Option ℕ) → Type 0
Forward r (Reader.done (some n) r') = r.pos + 4 ≤ r'.pos
Forward r (Reader.done none r') = Unit {0}
Forward r (Reader.stopped s) = Unit {0}

read_uint32-Forward : (r : Reader) → IsValid r → Forward r (Reader.read_uint32 r)
unfolding up Reader.read_uint32
read_uint32-Forward r v =
    rw (read_aligned_lem 4 bswap32 r v.placed (omega arith) (omega arith)) (ground arith)

pub read_u32-forward :
    (r r' : Reader) (n : ℕ) → IsValid r → read_u32 r ≡ done n r' → r.pos + 4 ≤ r'.pos
read_u32-forward r r' n v e =
    rw (done-Agrees _ _ n r' e (read_u32-Agrees r v.placed)) at (read_uint32-Forward r v)

pub read_array_bounds-forward :
    (r r' : Reader) (b : ℕ × ℕ) → IsValid r → read_array_bounds 8 r ≡ done b r' → r.pos + 4 ≤ r'.pos
unfolding read_array_bounds
read_array_bounds-forward r r' b v e =
    let (len, r1, p, q) = bind-done read_u32 _ r b r' e in
    let (u, r2, p', q') = bind-done (align 8) _ r1 b r' q in
    let here = read_u32-forward r r1 len v p in
    let w = IsAhead-IsValid r r1 v (rw p at (read_u32-Finishes 0 r v)) in
    let ahead : IsAhead r1 r2 = rw p' at (align-Finishes 0 r1 w) in
    elim (Bool-cases (ltb (length r2.bytes) ((r2.pos + len) % size_mod))) [
      | inl t ↦ absurd (cc (rw t at q'))
      | inr f ↦
          let same : r'.pos ≡ r2.pos = subst (StandsAt r2.pos) (rw f at q') refl in
          omega (arith, ahead.forward)
    ]

pub seek-pos : (p : ℕ) (r r' : Reader) (u : Unit {0}) → seek p r ≡ done u r' → r'.pos ≡ p
unfolding seek
seek-pos p r r' u e = elim (Bool-cases (ltb (length r.bytes) p)) [
  | inl t ↦ absurd (cc (rw t at e))
  | inr f ↦ subst (StandsAt p) (rw f at e) refl
]

-- The bounds begin where the reader stands behind them.
abbrev Starts : Outcome (ℕ × ℕ) → Type 0
Starts (done b r) = b.0 ≡ r.pos
Starts _ = ⊥

pub read_array_bounds-start :
    (n : ℕ) (r r' : Reader) (b : ℕ × ℕ) → read_array_bounds n r ≡ done b r' → b.0 ≡ r'.pos
unfolding read_array_bounds
read_array_bounds-start n r r' b e =
    let (len, r1, p, q) = bind-done read_u32 _ r b r' e in
    let (u, r2, p', q') = bind-done (align n) _ r1 b r' q in
    elim (Bool-cases (ltb (length r2.bytes) ((r2.pos + len) % size_mod))) [
      | inl t ↦ absurd (cc (rw t at q'))
      | inr f ↦ subst Starts (rw f at q') refl
    ]
