-- ===== src/Core/Object/Table.antt =====
-- core/firmir-object.cpp against a plain table: which callbacks are registered for an emitter, an event
-- and a handler, and which emitters a handler knows.
use mathlib.Core.Option.{some-injective, none-ne-some}
use firmir.Base.{
  ap, ℕ, ◌≡◌, refl, arith, Bool, true, false, ◌&&◌, ◌||◌, Option, none, some, List, [], ◌∷◌, ◌++◌,
  ◌==◌, if◌then◌else◌, Bool-cases, ◌∙◌, inl, inr,
}
use firmir.Base.Assoc.{
  lookup, put, erase, map_option, member, lookup-put, lookup-erase, lookup-map_values,
  member-insert,
}
use firmir.Core.Object.{
  Callback, Handlers, Object, Store, update, ◌>>=◌, or_empty, subscribe, add_subscription,
  connect_to, erase_handler,
}

unfoldable pub registered_in : Option Object → ℕ → ℕ → Option (List Callback)
registered_in none event handler = none
registered_in (some o) event handler = lookup event o.subscribers >>= lookup handler

unfoldable pub registered : Store → ℕ → ℕ → ℕ → Option (List Callback)
unfolding registered_in
registered s emitter = registered_in (s emitter)

unfoldable pub knows_in : Option Object → ℕ → Bool
knows_in none emitter = false
knows_in (some o) emitter = member emitter o.subscriptions

unfoldable pub knows : Store → ℕ → ℕ → Bool
unfolding knows_in
knows s handler = knows_in (s handler)

lookup-or_empty : (k : ℕ) (o : Option Handlers) → lookup k (or_empty o) ≡ (o >>= lookup k)
unfolding lookup
lookup-or_empty k none = refl
lookup-or_empty k (some l) = refl

lookup-erase_option :
    (h k : ℕ) (o : Option Handlers)
    → (map_option (erase h) o >>= lookup k) ≡ (if h == k then none else (o >>= lookup k))
lookup-erase_option h k none = ground arith
lookup-erase_option h k (some l) = lookup-erase h k l

-- One more callback in the entry of an emitter, an event and a handler.
registered-subscribe :
    (v h : ℕ) (c : Callback) (o : Object) (v' h' : ℕ)
    → registered_in (some (subscribe v h c o)) v' h' ≡ (
        if (v == v') && (h == h')
        then some (or_empty (registered_in (some o) v h) ++ c ∷ [])
        else registered_in (some o) v' h')
unfolding registered_in subscribe
registered-subscribe v h c o v' h' =
    let old = or_empty (lookup v o.subscribers) in
    let calls = or_empty (lookup h old) ++ c ∷ [] in
    rw (lookup-put v v' (put h calls old) o.subscribers) (
      ground (
        arith,
        lookup-put h h' calls old,
        lookup-or_empty h (lookup v o.subscribers),
        lookup-or_empty h' (lookup v o.subscribers),
      ))

pub registered-erase_handler :
    (h : ℕ) (o : Object) (v' h' : ℕ)
    → registered_in (some (erase_handler h o)) v' h'
      ≡ (if h == h' then none else registered_in (some o) v' h')
unfolding registered_in erase_handler
registered-erase_handler h o v' h' =
    rw (lookup-map_values (erase h) v' o.subscribers)
      (lookup-erase_option h h' (lookup v' o.subscribers))

-- What a successful chain has gone through.
pub bind_some {ℓ κ} :
    {A : Type ℓ} {B : Type κ} {b : B} (o : Option A) (f : A → Option B)
    → (o >>= f) ≡ some b
    → (a : A) × (o ≡ some a) × (f a ≡ some b)
bind_some none f h = absurd (none-ne-some _ h)
bind_some (some a) f h = (a, refl, h)

pub ==-eq : (a b : ℕ) → (a == b) ≡ true → a ≡ b
==-eq a b h = ground arith

-- The first half of `connectTo`, on the emitter.
module _ (e v h : ℕ) (c : Callback) (s : Store) (o : Object) (at_e : s e ≡ some o) where
  abbrev half : Store
  half = update s e (some (subscribe v h c o))

  registered-half :
      (e' v' h' : ℕ)
      → registered half e' v' h' ≡ (
          if (e == e') && ((v == v') && (h == h'))
          then some (or_empty (registered s e v h) ++ c ∷ [])
          else registered s e' v' h')
  unfolding registered
  registered-half e' v' h' = elim (Bool-cases (e == e')) [
    | inl t ↦ rw (t, at_e, ← ==-eq e e' t, at_e) (registered-subscribe v h c o v' h')
    | inr f ↦ rw f
  ]

  knows-half : (h' e' : ℕ) → knows half h' e' ≡ knows s h' e'
  unfolding knows knows_in subscribe
  knows-half h' e' = elim (Bool-cases (e == h')) [
    | inl t ↦ rw (t, ← ==-eq e h' t, at_e)
    | inr f ↦ rw f
  ]

-- The second half, on the handler.
module _ (e h : ℕ) (s : Store) (p : Object) (at_h : s h ≡ some p) where
  abbrev whole : Store
  whole = update s h (some (add_subscription e p))

  registered-whole : (e' v' h' : ℕ) → registered whole e' v' h' ≡ registered s e' v' h'
  unfolding registered registered_in add_subscription
  registered-whole e' v' h' = elim (Bool-cases (h == e')) [
    | inl t ↦ rw (t, ← ==-eq h e' t, at_h)
    | inr f ↦ rw f
  ]

  knows-whole : (h' e' : ℕ) → knows whole h' e' ≡ (((e == e') && (h == h')) || knows s h' e')
  unfolding knows knows_in add_subscription
  knows-whole h' e' = elim (Bool-cases (h == h')) [
    | inl t ↦ rw (t, ← ==-eq h h' t, at_h) (member-insert e e' p.subscriptions ∙ ground arith)
    | inr f ↦ rw f (ground arith)
  ]

-- `connectTo` between two objects that are alive puts the callback behind those that the emitter has
-- for the event and the handler, and the emitter among those that the handler knows, and changes
-- nothing else of the two tables.
pub connect_to_lem :
    (e v h : ℕ) (c : Callback) (s s' : Store)
    → connect_to e v h c s ≡ some s'
    → (e' v' h' : ℕ)
    → (registered s' e' v' h' ≡ (
        if (e == e') && ((v == v') && (h == h'))
        then some (or_empty (registered s e v h) ++ c ∷ [])
        else registered s e' v' h'))
      × (knows s' h' e' ≡ (((e == e') && (h == h')) || knows s h' e'))
unfolding connect_to
connect_to_lem e v h c s s' p e' v' h' =
    let (o, at_e, q) = bind_some (s e) _ p in
    let t = half e v h c s o at_e in
    let (p', at_h, r) = bind_some (t h) _ q in
    let same : whole e h t p' at_h ≡ s' = some-injective _ _ r in
    rw (← same) (
      registered-whole e h t p' at_h e' v' h' ∙ registered-half e v h c s o at_e e' v' h',
      knows-whole e h t p' at_h h' e'
          ∙ ap (◌||◌ ((e == e') && (h == h'))) (knows-half e v h c s o at_e h' e'),
    )
