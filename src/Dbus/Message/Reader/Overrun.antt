-- ===== src/Dbus/Message/Reader/Overrun.antt =====
-- `MessagePrivate::Reader` of dbus/message.cpp: the reads that may leave the buffer.
use firmir.Base.{
  ℕ, List, codes, same_bytes, ◌||◌, ◌+◌, ◌≤◌, ◌%◌, ◌^◌, ◌≡◌, refl, ap, ◌∙◌, arith, Bool, true,
  false, Option, none, some, length, get_elem?-none, leb, leb→le, ◌==◌, Bool-cases, inl, inr,
}
use firmir.Dbus.Wire.{IsUint32}
use firmir.Dbus.Message.Reader.{
  Reader, out_of_bounds, bad_optional_access, out_of_fuel, Outcome, M, done, stopped, ◌>>=◌, branch,
  pure, with_value, check, window, current, read_uint8, read_uint32, read_signature,
  read_terminated, read_string,
}
use firmir.Dbus.Message.Reader.Safety.{
  IsValid, IsAhead, IsAhead-IsValid, IsAhead-trans, Within, read_uint32-IsSafe,
}
use firmir.Dbus.Message.Reader.Strings.{
  read_terminated-Within, terminated_tail, read_uint32-IsUint32,
}

-- A string of the length 2 ^ 32 - 1 stands at the reader, and `readString` leaves the buffer over it.
pub record Wraps (r : Reader) : Type 0 where
  pub behind : Reader
  pub length_read : read_uint32 r ≡ done (some 0xFFFFFFFF) behind
  pub overrun : read_string r ≡ stopped out_of_bounds

-- Ahead in the buffer, from the position `low` on, stand one behind the other the code of a field, the signature of a string or of
-- an object path, and a string of the length 2 ^ 32 - 1, over which `readString` leaves the buffer.
pub record HasWrap (low : ℕ) (r : Reader) : Type 0 where
  pub field : Reader
  pub coded : Reader
  pub string : Reader
  pub code : ℕ
  pub signature : List ℕ
  pub ahead : IsAhead r field
  pub from : low ≤ field.pos
  pub code_read : read_uint8 field ≡ done (some code) coded
  pub signature_read : read_signature coded ≡ done (some signature) string
  pub is_text : (same_bytes signature (codes "s") || same_bytes signature (codes "o")) ≡ true
  pub wraps : Wraps string

-- The run ends with a result, and the reader ahead, or it leaves the buffer under the condition `Q`.
abbrev pub EndsWith {ℓ} : {A : Type ℓ} → Type 0 → Reader → Outcome A → Type 0
EndsWith Q r (done a r') = IsAhead r r'
EndsWith Q r (stopped out_of_bounds) = Q
EndsWith Q r (stopped bad_optional_access) = ⊥
EndsWith Q r (stopped out_of_fuel) = ⊥

-- The run ends with a result, and the reader ahead, or it leaves the buffer over such a length.
abbrev pub Ends {ℓ} : {A : Type ℓ} → ℕ → Reader → Outcome A → Type 0
Ends low r o = EndsWith (HasWrap low r) r o

pub HasWrap-back :
    (low : ℕ) (r r' : Reader) → IsValid r → IsAhead r r' → HasWrap low r' → HasWrap low r
HasWrap-back low r r' v a w = record {
  field = w.field;
  coded = w.coded;
  string = w.string;
  code = w.code;
  signature = w.signature;
  ahead = IsAhead-trans r r' w.field v a w.ahead;
  from = w.from;
  code_read = w.code_read;
  signature_read = w.signature_read;
  is_text = w.is_text;
  wraps = w.wraps;
}

module _ {ℓ} {A : Type ℓ} where
  pub Within-EndsWith : (Q : Type 0) (r : Reader) (o : Outcome A) → Within r o → EndsWith Q r o
  Within-EndsWith Q r (done a r') w = w
  Within-EndsWith Q r (stopped s) w = absurd w

  pub EndsWith-map :
      (P Q : Type 0) (r : Reader) (o : Outcome A) → (P → Q) → EndsWith P r o → EndsWith Q r o
  EndsWith-map P Q r (done a r') f w = w
  EndsWith-map P Q r (stopped out_of_bounds) f w = f w
  EndsWith-map P Q r (stopped bad_optional_access) f w = w
  EndsWith-map P Q r (stopped out_of_fuel) f w = w

  pub EndsWith-back :
      (Q : Type 0) (r r' : Reader) (o : Outcome A)
      → IsValid r
      → IsAhead r r'
      → EndsWith Q r' o
      → EndsWith Q r o
  EndsWith-back Q r r' (done a r'') v h w = IsAhead-trans r r' r'' v h w
  EndsWith-back Q r r' (stopped out_of_bounds) v h w = w
  EndsWith-back Q r r' (stopped bad_optional_access) v h w = w
  EndsWith-back Q r r' (stopped out_of_fuel) v h w = w

  EndsWith-IsAhead :
      (Q : Type 0) (r : Reader) (o : Outcome A) (a : A) (r' : Reader)
      → EndsWith Q r o
      → o ≡ done a r'
      → IsAhead r r'
  EndsWith-IsAhead Q r o a r' w e = rw e at w

  pub Within-Ends : (low : ℕ) (r : Reader) (o : Outcome A) → Within r o → Ends low r o
  Within-Ends low r o w = Within-EndsWith (HasWrap low r) r o w

  pub Ends-back :
      (low : ℕ) (r r' : Reader) (o : Outcome A)
      → IsValid r
      → IsAhead r r'
      → Ends low r' o
      → Ends low r o
  Ends-back low r r' o v h w =
      EndsWith-map (HasWrap low r') (HasWrap low r) r o (HasWrap-back low r r' v h)
        (EndsWith-back (HasWrap low r') r r' o v h w)

module _ {ℓ κ} {A : Type ℓ} {B : Type κ} where
  continue_EndsWith :
      (Q : Type 0) (r : Reader) (f : A → M B) (o : Outcome A)
      → IsValid r
      → EndsWith Q r o
      → ((a : A) (r' : Reader) → o ≡ done a r' → IsValid r' → EndsWith Q r (f a r'))
      → EndsWith Q r (elim o [ done a r' ↦ f a r' | stopped s ↦ stopped s ])
  continue_EndsWith Q r f (done a r') v w k = k a r' refl (IsAhead-IsValid r r' v w)
  continue_EndsWith Q r f (stopped out_of_bounds) v w k = w
  continue_EndsWith Q r f (stopped bad_optional_access) v w k = w
  continue_EndsWith Q r f (stopped out_of_fuel) v w k = w

  -- The condition is the same for both parts of the run.
  pub bind-EndsWith :
      (Q : Type 0) (m : M A) (f : A → M B) (r : Reader)
      → IsValid r
      → EndsWith Q r (m r)
      → ((a : A) (r' : Reader) → m r ≡ done a r' → IsValid r' → EndsWith Q r' (f a r'))
      → EndsWith Q r ((m >>= f) r)
  bind-EndsWith Q m f r v w k = continue_EndsWith Q r f (m r) v w λ a r' e v'.
      EndsWith-back Q r r' (f a r') v (EndsWith-IsAhead Q r (m r) a r' w e) (k a r' e v')

  pub bind-Ends :
      (low : ℕ) (m : M A) (f : A → M B) (r : Reader)
      → IsValid r
      → Ends low r (m r)
      → ((a : A) (r' : Reader) → m r ≡ done a r' → IsValid r' → Ends low r' (f a r'))
      → Ends low r ((m >>= f) r)
  bind-Ends low m f r v w k = continue_EndsWith (HasWrap low r) r f (m r) v w λ a r' e v'.
      Ends-back low r r' (f a r') v (EndsWith-IsAhead (HasWrap low r) r (m r) a r' w e)
        (k a r' e v')

-- The copy of any number of bytes stays inside the buffer, or leaves it.
abbrev Leaves {ℓ} : {A : Type ℓ} → Reader → Outcome A → Type 0
Leaves r (done a r') = IsAhead r r'
Leaves r (stopped s) = s ≡ out_of_bounds

Within-Leaves {ℓ} : {A : Type ℓ} (r : Reader) (o : Outcome A) → Within r o → Leaves r o
Within-Leaves r (done a r') w = w
Within-Leaves r (stopped s) w = absurd w

read_terminated-Leaves : (len : ℕ) (r : Reader) → IsValid r → Leaves r (read_terminated len r)
unfolding read_terminated window current
read_terminated-Leaves len r v = elim (Bool-cases (leb (r.pos + len) (length r.bytes))) [
  | inr f ↦ rw (f, read_terminated, window, ◌>>=◌)
  | inl t ↦ elim (Bool-cases (leb (r.pos + len + 1) (length r.bytes))) [
    | inl u ↦ Within-Leaves r _ (read_terminated-Within len r v (leb→le _ _ u))
    | inr f ↦
        let e = get_elem?-none r.bytes (r.pos + len) (ground (arith, f)) in
        rw (t, e, read_terminated, window, current, ◌>>=◌)
  ]
]

Leaves-EndsWith {ℓ} :
    {A : Type ℓ} (Q : Type 0) (r r' : Reader) (o : Outcome A)
    → IsValid r
    → IsAhead r r'
    → Q
    → Leaves r' o
    → EndsWith Q r o
Leaves-EndsWith Q r r' (done a r'') v h w l = IsAhead-trans r r' r'' v h l
Leaves-EndsWith Q r r' (stopped out_of_bounds) v h w l = w
Leaves-EndsWith Q r r' (stopped bad_optional_access) v h w l = absurd (cc l)
Leaves-EndsWith Q r r' (stopped out_of_fuel) v h w l = absurd (cc l)

wrapped :
    (Q : Type 0) (b : Bool) (len : ℕ) (r r' : Reader)
    → IsValid r
    → IsAhead r r'
    → Q
    → EndsWith Q r (branch b (read_terminated len) (pure none) r')
wrapped Q true len r r' v a w =
    Leaves-EndsWith Q r r' _ v a w (read_terminated-Leaves len r' (IsAhead-IsValid r r' v a))
wrapped Q false len r r' v a w = a

-- The length 2 ^ 32 - 1 at the reader.
abbrev Longest : Reader → Type 0
Longest r = (behind : Reader) × (read_uint32 r ≡ done (some 0xFFFFFFFF) behind)

-- The length of a string is 2 ^ 32 - 1, or the read stays inside the buffer.
read_string-Longest : (r : Reader) → IsValid r → EndsWith (Longest r) r (read_string r)
unfolding read_string check
read_string-Longest r v = go (read_uint32 r) refl (read_uint32-IsSafe r v)
  where
    go :
        (o : Outcome (Option ℕ))
        → read_uint32 r ≡ o
        → Within r o
        → EndsWith (Longest r) r (elim o [
          | done a r' ↦
              with_value a
                (λ len. check ((len + 1) % 2 ^ 32) >>= λ enough.
                  branch enough (read_terminated len) (pure none))
                r'
          | stopped s ↦ stopped s
        ])
    go (done none r') e a = a
    go (done (some len) r') e a =
        let w = IsAhead-IsValid r r' v a in
        elim (Bool-cases (len == 0xFFFFFFFF)) [
          | inl t ↦
              wrapped (Longest r) _ len r r' v a
                (r', e ∙ ap (λ n. done (some n) r') (ground (arith, t)))
          | inr f ↦
              let fits : IsUint32 len = read_uint32-IsUint32 r r' len v e in
              EndsWith-back (Longest r) r r' _ v a (
                Within-EndsWith (Longest r) r' _ (
                  terminated_tail ((len + 1) % 2 ^ 32) len r' w (ground (arith, f, fits))
                    (omega arith)))
        ]
    go (stopped s) e a = absurd a

-- And where it does not, the length of the string is 2 ^ 32 - 1.
pub read_string-EndsWith : (r : Reader) → IsValid r → EndsWith (Wraps r) r (read_string r)
read_string-EndsWith r v = go (read_string r) refl (read_string-Longest r v)
  where
    go :
        (o : Outcome (Option (List ℕ)))
        → read_string r ≡ o
        → EndsWith (Longest r) r o
        → EndsWith (Wraps r) r o
    go (done a r') e w = w
    go (stopped out_of_bounds) e (b, q) = record { behind = b; length_read = q; overrun = e }
    go (stopped bad_optional_access) e w = w
    go (stopped out_of_fuel) e w = w
