-- ===== src/Core/Object/Lifetime.antt =====
-- core/firmir-object.cpp: what the destructor of an object does to the registrations.
use mathlib.Core.Option.{some-injective, none-ne-some}
use firmir.Base.{
  ℕ, ◌≡◌, ◌≢◌, sym, ◌∙◌, arith, true, false, ◌&&◌, ◌||◌, none, some, List, [], ◌∷◌, ◌==◌,
  if◌then◌else◌, Option-cases, Bool-cases, inl, inr,
}
use firmir.Base.Assoc.{member}
use firmir.Core.Object.{Object, Store, update, erase_handler, forget, destroy}
use firmir.Core.Object.Table.{
  registered, registered_in, knows, knows_in, registered-erase_handler, bind_some, ==-eq,
}

-- One round of the destructor's loop.
module _ (h e : ℕ) (s : Store) (o : Object) (at_e : s e ≡ some o) where
  abbrev pub erased : Store
  erased = update s e (some (erase_handler h o))

  registered-erased :
      (e' v' h' : ℕ)
      → registered erased e' v' h'
        ≡ (if (e == e') && (h == h') then none else registered s e' v' h')
  unfolding registered
  registered-erased e' v' h' = elim (Bool-cases (e == e')) [
    | inl t ↦ rw (t, ← ==-eq e e' t, at_e) (registered-erase_handler h o v' h')
    | inr f ↦ rw f
  ]

  knows-erased : (h' e' : ℕ) → knows erased h' e' ≡ knows s h' e'
  unfolding knows knows_in erase_handler
  knows-erased h' e' = elim (Bool-cases (e == h')) [
    | inl t ↦ rw (t, ← ==-eq e h' t, at_e)
    | inr f ↦ rw f
  ]

  pub erased-none : (b : ℕ) → s b ≡ none → erased b ≡ none
  erased-none b q = elim (Bool-cases (e == b)) [
    | inl t ↦ absurd (none-ne-some o (sym q ∙ rw (← ==-eq e b t) at_e))
    | inr f ↦ rw f q
  ]

-- The whole loop.
registered-forget :
    (h : ℕ) (es : List ℕ) (s s' : Store)
    → forget h es s ≡ some s'
    → (e' v' h' : ℕ)
    → registered s' e' v' h' ≡ (if member e' es && (h == h') then none else registered s e' v' h')
unfolding forget member
registered-forget h [] s s' p e' v' h' = rw (some-injective _ _ p)
registered-forget h (e ∷ es) s s' p e' v' h' =
    let (o, at_e, q) = bind_some (s e) _ p in
    registered-forget h es (erased h e s o at_e) s' q e' v' h'
    ∙ ground (arith, registered-erased h e s o at_e e' v' h')

pub knows-forget :
    (h : ℕ) (es : List ℕ) (s s' : Store)
    → forget h es s ≡ some s'
    → (h' e' : ℕ) → knows s' h' e' ≡ knows s h' e'
unfolding forget
knows-forget h [] s s' p h' e' = rw (some-injective _ _ p)
knows-forget h (e ∷ es) s s' p h' e' =
    let (o, at_e, q) = bind_some (s e) _ p in
    knows-forget h es (erased h e s o at_e) s' q h' e' ∙ knows-erased h e s o at_e h' e'

-- A handler knows every emitter that has a callback for it.
pub record Mirrors (s : Store) : Type 0 where
  pub known : (e v h : ℕ) → registered s e v h ≢ none → knows s h e ≡ true

pub unknown :
    (s : Store) → Mirrors s → (e v h : ℕ) → knows s h e ≡ false → registered s e v h ≡ none
unknown s m e v h f = elim (Option-cases (registered s e v h)) [
  | inl q ↦ q
  | inr (c, q) ↦ absurd (cc (f, m.known e v h (λ n. none-ne-some c (sym n ∙ q))))
]

-- What a destruction that does not fail has gone through.
pub destroyed :
    (a : ℕ) (s s' : Store)
    → destroy a s ≡ some s'
    → (o : Object) × (t : Store) × (s a ≡ some o)
      × (forget a o.subscriptions s ≡ some t)
      × (update t a none ≡ s')
unfolding destroy
destroyed a s s' p =
    let (o, at_a, q) = bind_some (s a) _ p in
    let (t, f, r) = bind_some (forget a o.subscriptions s) _ q in
    (o, t, at_a, f, some-injective _ _ r)

pub knows_at :
    (s : Store) (a : ℕ) (o : Object)
    → s a ≡ some o
    → (e : ℕ) → knows s a e ≡ member e o.subscriptions
unfolding knows knows_in
knows_at s a o q e = rw q

-- The loop covers every callback that the handler has.
unsubscribed :
    (a : ℕ) (s : Store)
    → Mirrors s
    → (o : Object) → s a ≡ some o
    → (e v h : ℕ)
    → (if member e o.subscriptions && (a == h) then none else registered s e v h)
      ≡ (if a == h then none else registered s e v h)
unsubscribed a s m o q e v h = elim (Bool-cases (a == h)) [
  | inr n ↦ rw n (ground arith)
  | inl y ↦ elim (Bool-cases (member e o.subscriptions)) [
    | inl k ↦ rw (y, k)
    | inr k ↦ rw (y, k) (unknown s m e v h (rw (← ==-eq a h y) (knows_at s a o q e ∙ k)))
  ]
]

-- The destruction of an object, where handlers know their emitters, takes out every callback of its
-- own events and every callback that it has for the events of others, and no other callback.
pub destroy-registered :
    (a : ℕ) (s s' : Store)
    → Mirrors s
    → destroy a s ≡ some s'
    → (e v h : ℕ)
    → registered s' e v h ≡ (if (a == e) || (a == h) then none else registered s e v h)
unfolding registered registered_in
destroy-registered a s s' m p e v h =
    let (o, t, at_a, f, same) = destroyed a s s' p in
    rw (← same) (elim (Bool-cases (a == e)) [
      | inl y ↦ rw y
      | inr n ↦
          rw n (registered-forget a o.subscriptions s t f e v h ∙ unsubscribed a s m o at_a e v h)
    ])

pub knows-destroy :
    (a : ℕ) (s s' : Store)
    → destroy a s ≡ some s'
    → (h e : ℕ) → knows s' h e ≡ (if a == h then false else knows s h e)
unfolding knows knows_in
knows-destroy a s s' p h e =
    let (o, t, at_a, f, same) = destroyed a s s' p in
    rw (← same) (elim (Bool-cases (a == h)) [
      | inl y ↦ rw y
      | inr n ↦ rw n (knows-forget a o.subscriptions s t f h e)
    ])
