-- ===== src/Core/Object/Faults.antt =====
-- core/firmir-object.cpp: when the destructor of an object reads an object that is not alive.
use mathlib.Core.Option.{none-ne-some}
use firmir.Base.{
  ℕ, ◌≡◌, ◌≢◌, refl, sym, ◌∙◌, arith, true, false, none, some, List, [], ◌∷◌, ◌==◌, Option-cases,
  Bool-cases, inl, inr, eq→==, ne→==_false,
}
use firmir.Base.Assoc.{member}
use firmir.Core.Object.{Callback, Object, Store, update, connect_to, forget, destroy}
use firmir.Core.Object.Table.{knows, ==-eq, connect_to_lem}
use firmir.Core.Object.Lifetime.{erased, erased-none, knows_at, knows-destroy, destroyed}

forget-none :
    (h e : ℕ) (es : List ℕ) (s : Store) → member e es ≡ true → s e ≡ none → forget h es s ≡ none
unfolding forget member
forget-none h e [] s k q = absurd (cc k)
forget-none h e (d ∷ es) s k q = elim (Option-cases (s d)) [
  | inl n ↦ rw n
  | inr (o, at_d) ↦ elim (Bool-cases (d == e)) [
    | inl y ↦ absurd (none-ne-some o (sym q ∙ rw (← ==-eq d e y) at_d))
    | inr n ↦
        rw at_d
          (forget-none h e es (erased h d s o at_d) (rw n at k) (erased-none h d s o at_d e q))
  ]
]

-- A handler that knows an emitter that is not alive cannot be destroyed.
destroy-none : (h e : ℕ) (s : Store) → knows s h e ≡ true → s e ≡ none → destroy h s ≡ none
unfolding destroy
destroy-none h e s k q = elim (Option-cases (s h)) [
  | inl n ↦ rw n
  | inr (o, at_h) ↦ rw (at_h, forget-none h e o.subscriptions s (sym (knows_at s h o at_h e) ∙ k) q)
]

-- If an emitter is destroyed before an object that has subscribed to it, the destructor of that object
-- reads the emitter when it is not alive any more: whatever the two objects are, and whatever was
-- subscribed before.
pub destroy_emitter_first :
    (e v h : ℕ) (c : Callback) (s s1 s2 : Store)
    → e ≢ h
    → connect_to e v h c s ≡ some s1
    → destroy e s1 ≡ some s2
    → destroy h s2 ≡ none
destroy_emitter_first e v h c s s1 s2 n p q =
    let known : knows s1 h e ≡ true =
      (connect_to_lem e v h c s s1 p e v h).1 ∙ rw (eq→== e e refl, eq→== h h refl) in
    let still : knows s2 h e ≡ true = knows-destroy e s1 s2 q h e ∙ rw (ne→==_false e h n) known in
    let (o, t, at_e, f, same) = destroyed e s1 s2 q in
    destroy-none h e s2 still (rw (← same) (rw (eq→== e e refl)))

erased-alive :
    (h e : ℕ) (s : Store) (o : Object) (at_e : s e ≡ some o) (b : ℕ)
    → erased h e s o at_e b ≡ none
    → s b ≡ none
erased-alive h e s o at_e b q = elim (Bool-cases (e == b)) [
  | inl y ↦ absurd (none-ne-some _ (sym (rw y at q)))
  | inr n ↦ rw n at q
]

forget_total :
    (h : ℕ) (es : List ℕ) (s : Store)
    → ((e : ℕ) → s e ≡ none → member e es ≡ false)
    → (s' : Store) × (forget h es s ≡ some s')
unfolding forget member
forget_total h [] s live = (s, refl)
forget_total h (e ∷ es) s live = elim (Option-cases (s e)) [
  | inl n ↦ absurd (ground (arith, live e n))
  | inr (o, at_e) ↦
      let (t, q) =
        forget_total h es (erased h e s o at_e)
          (λ b d. ground (arith, live b (erased-alive h e s o at_e b d))) in
      (t, rw at_e q)
]

-- The destruction of a living object whose known emitters are all alive does not fail.
pub destroy_total :
    (a : ℕ) (s : Store) (o : Object)
    → s a ≡ some o
    → ((e : ℕ) → s e ≡ none → knows s a e ≡ false)
    → (s' : Store) × (destroy a s ≡ some s')
unfolding destroy
destroy_total a s o at_a live =
    let (t, q) = forget_total a o.subscriptions s (λ e d. sym (knows_at s a o at_a e) ∙ live e d) in
    (update t a none, rw (at_a, q))
