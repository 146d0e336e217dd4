-- ===== src/Dbus/Message/Header/Safety.antt =====
-- The constructor of `DynamicHeader` in dbus/message.cpp, on any bytes.
use firmir.Base.{
  ℕ, zero, suc, ◌+◌, ◌≤◌, ◌<◌, ◌≡◌, refl, ap, arith, true, Option, none, some, List, length,
  get_elem?-some, same_bytes, ◌||◌, ltb, Bool-cases, inl, inr,
}
use firmir.Dbus.Message.Layout.{up}
use firmir.Dbus.Message.Reader.{
  Reader, out_of_bounds, bad_optional_access, out_of_fuel, Outcome, M, done, stopped, ◌>>=◌, pure,
  current, align, read_uint8, read_uint32, read_string, read_signature,
}
use firmir.Dbus.Message.Reader.Safety.{
  IsValid, IsAhead, IsAhead-IsValid, IsAhead-same, IsAhead-trans, Within, read_uint8-IsSafe,
  read_uint32-IsSafe, align_lem,
}
use firmir.Dbus.Message.Reader.Strings.{read_signature-Within}
use firmir.Dbus.Message.Header.{
  DynamicHeader, Field, s_sig, o_sig, g_sig, u_sig, read_value, read_field, read_fields,
  read_dynamic, default_dynamic,
}
use firmir.Dbus.Message.Reader.Overrun.{
  Wraps, HasWrap, Ends, EndsWith, Within-EndsWith, EndsWith-map, Within-Ends, Ends-back, bind-Ends,
  bind-EndsWith, read_string-EndsWith,
}

-- And a result that is there has taken a byte at least.
abbrev pub Gains {ℓ} : {A : Type ℓ} → ℕ → Reader → Outcome (Option A) → Type 0
Gains low r (done none r') = IsAhead r r'
Gains low r (done (some a) r') = IsAhead r r' × (r.pos < r'.pos)
Gains low r (stopped out_of_bounds) = HasWrap low r
Gains low r (stopped bad_optional_access) = ⊥
Gains low r (stopped out_of_fuel) = ⊥

module _ {ℓ} {A : Type ℓ} where
  Ends-Gains :
      (low : ℕ) (r r' : Reader) (o : Outcome (Option A))
      → IsValid r
      → IsAhead r r'
      → r.pos < r'.pos
      → EndsWith (HasWrap low r) r' o
      → Gains low r o
  Ends-Gains low r r' (done none r'') v h l w = IsAhead-trans r r' r'' v h w
  Ends-Gains low r r' (done (some a) r'') v h l w =
      (IsAhead-trans r r' r'' v h w, omega (arith, w.forward))
  Ends-Gains low r r' (stopped out_of_bounds) v h l w = w
  Ends-Gains low r r' (stopped bad_optional_access) v h l w = w
  Ends-Gains low r r' (stopped out_of_fuel) v h l w = w

-- A string or an object path whose length is 2 ^ 32 - 1.
record TextWraps (sig : List ℕ) (r : Reader) : Type 0 where
  is_text : (same_bytes sig s_sig || same_bytes sig o_sig) ≡ true
  wraps : Wraps r

read_value-EndsWith :
    (f : Field) (sig : List ℕ) (h : DynamicHeader) (r : Reader)
    → IsValid r
    → EndsWith (TextWraps sig r) r (read_value f sig h r)
unfolding read_value
read_value-EndsWith f sig h r v = elim (Bool-cases (same_bytes sig s_sig || same_bytes sig o_sig)) [
  | inl t ↦ rw t (
      bind-EndsWith (TextWraps sig r) read_string _ r v
        (EndsWith-map (Wraps r) (TextWraps sig r) r _ (λ w. record { is_text = t; wraps = w })
          (read_string-EndsWith r v))
        (λ a r' e w. IsAhead-same r' w))
  | inr f1 ↦ elim (Bool-cases (same_bytes sig g_sig)) [
    | inl t ↦
        rw (f1, t)
          (bind-EndsWith (TextWraps sig r) read_signature _ r v
            (Within-EndsWith (TextWraps sig r) r _ (read_signature-Within r v))
            (λ a r' e w. IsAhead-same r' w))
    | inr f2 ↦ elim (Bool-cases (same_bytes sig u_sig)) [
      | inl t ↦
          rw (f1, f2, t)
            (bind-EndsWith (TextWraps sig r) read_uint32 _ r v
              (Within-EndsWith (TextWraps sig r) r _ (read_uint32-IsSafe r v))
              (λ a r' e w. IsAhead-same r' w))
      | inr f3 ↦ rw (f1, f2, f3) (IsAhead-same r v)
    ]
  ]
]

-- A byte that is there moves the reader.
read_uint8-gains :
    (r r' : Reader) (b : ℕ) → IsValid r → read_uint8 r ≡ done (some b) r' → r.pos < r'.pos
unfolding read_uint8 current
read_uint8-gains r r' b v e = ground (arith, get_elem?-some r.bytes r.pos)

continue_Gains {ℓ κ} :
    (low : ℕ) {A : Type ℓ} {B : Type κ} (r : Reader) (f : A → M (Option B)) (o : Outcome A)
    → Within r o
    → ((a : A) (r' : Reader) → o ≡ done a r' → IsAhead r r' → Gains low r (f a r'))
    → Gains low r (elim o [ done a r' ↦ f a r' | stopped s ↦ stopped s ])
continue_Gains low r f (done a r') w k = k a r' refl w
continue_Gains low r f (stopped s) w k = absurd w

-- A signature, and a text behind it.
abbrev Coded : Reader → Type 0
Coded r =
    (sig : List ℕ) × (at : Reader) × (read_signature r ≡ done (some sig) at) × TextWraps sig at

-- Behind the code of a field.
Coded-EndsWith :
    (f : Field) (h : DynamicHeader) (r : Reader)
    → IsValid r
    → EndsWith (Coded r) r (
        (read_signature >>= λ v r'. elim v [
          | none ↦ done none r'
          | some sig ↦ read_value f sig h r'
        ])
          r)
Coded-EndsWith f h r v =
    bind-EndsWith (Coded r) read_signature _ r v
      (Within-EndsWith (Coded r) r _ (read_signature-Within r v)) go
  where
    go :
        (o : Option (List ℕ)) (r' : Reader)
        → read_signature r ≡ done o r'
        → IsValid r'
        → EndsWith (Coded r) r' (elim o [ none ↦ done none r' | some sig ↦ read_value f sig h r' ])
    go none r' e w = IsAhead-same r' w
    go (some sig) r' e w =
        EndsWith-map (TextWraps sig r') (Coded r) r' _ (λ x. (sig, r', e, x))
          (read_value-EndsWith f sig h r' w)

-- All of it behind the code of the field.
Coded-HasWrap :
    (low : ℕ) (r r' : Reader) (f : ℕ)
    → IsValid r
    → low ≤ r.pos
    → read_uint8 r ≡ done (some f) r'
    → Coded r'
    → HasWrap low r
Coded-HasWrap low r r' f v above e (sig, at, q, w) = record {
  field = r;
  coded = r';
  string = at;
  code = f;
  signature = sig;
  ahead = IsAhead-same r v;
  from = above;
  code_read = e;
  signature_read = q;
  is_text = w.is_text;
  wraps = w.wraps;
}

pub read_field-Gains :
    (low : ℕ) (h : DynamicHeader) (r : Reader)
    → IsValid r
    → low ≤ r.pos
    → Gains low r (read_field h r)
unfolding read_field
read_field-Gains low h r v above = continue_Gains low r _ (read_uint8 r) (read_uint8-IsSafe r v) go
  where
    go :
        (o : Option ℕ) (r' : Reader)
        → read_uint8 r ≡ done o r'
        → IsAhead r r'
        → Gains low r (elim o [
          | none ↦ done none r'
          | some f ↦
              (read_signature >>= λ v' r''. elim v' [
                | none ↦ done none r''
                | some sig ↦ read_value f sig h r''
              ])
                r'
        ])
    go none r' e a = a
    go (some f) r' e a = Ends-Gains low r r' _ v a (read_uint8-gains r r' f v e) (
        EndsWith-map (Coded r') (HasWrap low r) r' _ (Coded-HasWrap low r r' f v above e)
          (Coded-EndsWith f h r' (IsAhead-IsValid r r' v a)))

pub align-Within : (r : Reader) → IsValid r → Within r (align 8 r)
unfolding up
align-Within r v = rw (align_lem 8 r v.placed (omega arith) (omega arith)) (ground arith)

round_Ends :
    (low : ℕ) (h : DynamicHeader) (k : DynamicHeader → M DynamicHeader) (r : Reader)
    → IsValid r
    → low ≤ r.pos
    → ((h' : DynamicHeader) (r' : Reader) → IsAhead r r' → r.pos < r'.pos → Ends low r' (k h' r'))
    → Ends low r ((read_field h >>= λ o. elim o [ none ↦ pure h | some h' ↦ k h' ]) r)
round_Ends low h k r v above next = go (read_field h r) (read_field-Gains low h r v above)
  where
    go :
        (o : Outcome (Option DynamicHeader))
        → Gains low r o
        → Ends low r (elim o [
          | done a r' ↦
              (λ (x : Option DynamicHeader). elim x as (λ _. M DynamicHeader) [
                | none ↦ pure h
                | some h' ↦ k h'
              ])
                a r'
          | stopped s ↦ stopped s
        ])
    go (done none r') g = g
    go (done (some h') r') (a, l) = Ends-back low r r' _ v a (next h' r' a l)
    go (stopped out_of_bounds) g = g
    go (stopped bad_optional_access) g = g
    go (stopped out_of_fuel) g = g

-- What is left of the buffer bounds the rounds of the loop.
read_fields-Ends :
    (low : ℕ) (fuel end : ℕ) (h : DynamicHeader) (r : Reader)
    → IsValid r
    → low ≤ r.pos
    → length r.bytes < r.pos + fuel
    → Ends low r (read_fields fuel end h r)
unfolding read_fields
read_fields-Ends low zero end h r v above l = absurd (omega (arith, v.placed.inside))
read_fields-Ends low (suc fuel) end h r v above l = elim (Bool-cases (ltb r.pos end)) [
  | inr f ↦ rw f (IsAhead-same r v)
  | inl t ↦ rw t (
      bind-Ends low (align 8) _ r v (Within-Ends low r _ (align-Within r v)) (λ a r' e w.
        let ahead : IsAhead r r' = rw e at (align-Within r v) in
        elim (Bool-cases (ltb r'.pos end)) [
          | inr f ↦ rw f (IsAhead-same r' w)
          | inl u ↦ rw u (
              round_Ends low h (read_fields fuel end) r' w (omega (arith, ahead.forward))
                (λ h' r'' b m.
                  read_fields-Ends low fuel end h' r'' (IsAhead-IsValid r' r'' w b)
                    (omega (arith, ahead.forward, b.forward))
                    (omega (arith, ap length ahead.bytes, ap length b.bytes, ahead.forward))))
        ]))
]

-- On any bytes, fewer than 2 ^ 63, with any end, and with `low` at the reader or before it, the constructor of the dynamic header terminates
-- and throws nothing: it leaves the reader in the same buffer and not behind where it was, or it reads
-- over the end of the buffer, and this only where the code of a field, the signature of a string or of
-- an object path, and a length of 2 ^ 32 - 1 at which `readString` overruns stand ahead in the buffer,
-- from `low` on.
pub read_dynamic-Ends :
    (low : ℕ) (end : ℕ) (r : Reader) → IsValid r → low ≤ r.pos → Ends low r (read_dynamic end r)
unfolding read_dynamic
read_dynamic-Ends low end r v above =
    read_fields-Ends low (length r.bytes + 1) end default_dynamic r v above (omega arith)
