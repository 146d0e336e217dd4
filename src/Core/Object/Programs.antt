-- ===== src/Core/Object/Programs.antt =====
-- core/firmir-object.cpp: sequences of calls that a program makes on objects.
use mathlib.Core.Option.{some-injective, none-ne-some}
use firmir.Base.{
  ℕ, ◌≡◌, refl, sym, ◌∙◌, arith, false, Option, none, some, List, [], ◌∷◌, ◌++◌, subst, ◌==◌,
  if◌then◌else◌, Option-cases, Bool-cases, inl, inr,
}
use firmir.Base.Assoc.{lookup, member}
use firmir.Core.Object.{Callback, new_object, Store, update, ◌>>=◌, connect_to, destroy}
use firmir.Core.Object.Table.{registered, registered_in, knows, knows_in, bind_some, connect_to_lem}
use firmir.Core.Object.Lifetime.{Mirrors, destroy-registered, knows-destroy}

-- A new object, at an address that no live object has.
unfoldable pub create : ℕ → Store → Option Store
create a s = elim (s a) [ none ↦ some (update s a (some new_object)) | some o ↦ none ]

pub data Act : Type 0 where
  act_create : ℕ → Act
  act_connect : ℕ → ℕ → ℕ → Callback → Act
  act_destroy : ℕ → Act

unfoldable pub perform : Act → Store → Option Store
perform (act_create a) s = create a s
perform (act_connect e v h c) s = connect_to e v h c s
perform (act_destroy a) s = destroy a s

unfoldable pub run : List Act → Store → Option Store
run [] s = some s
run (x ∷ xs) s = perform x s >>= run xs

abbrev pub empty_store : Store
empty_store a = none

empty-Mirrors : Mirrors empty_store
unfolding registered registered_in
empty-Mirrors = record { known = λ e v h n. absurd (n refl) }

connect_to-Mirrors :
    (e v h : ℕ) (c : Callback) (s s' : Store)
    → Mirrors s
    → connect_to e v h c s ≡ some s'
    → Mirrors s'
connect_to-Mirrors e v h c s s' m p = record {
  known = λ e' v' h' n.
      let (r, k) = connect_to_lem e v h c s s' p e' v' h' in ground (arith, r, k, m.known e' v' h');
}

destroy-Mirrors : (a : ℕ) (s s' : Store) → Mirrors s → destroy a s ≡ some s' → Mirrors s'
destroy-Mirrors a s s' m p = record {
  known = λ e v h n.
      ground
        (arith, destroy-registered a s s' m p e v h, knows-destroy a s s' p h e, m.known e v h);
}

registered-fresh :
    (a : ℕ) (s : Store) (e v h : ℕ)
    → registered (update s a (some new_object)) e v h
      ≡ (if a == e then none else registered s e v h)
unfolding registered registered_in lookup
registered-fresh a s e v h = elim (Bool-cases (a == e)) [ inl y ↦ rw y | inr n ↦ rw n ]

knows-fresh :
    (a : ℕ) (s : Store) (h e : ℕ)
    → knows (update s a (some new_object)) h e ≡ (if a == h then false else knows s h e)
unfolding knows knows_in member
knows-fresh a s h e = elim (Bool-cases (a == h)) [ inl y ↦ rw y | inr n ↦ rw n ]

knows-none : (s : Store) (a e : ℕ) → s a ≡ none → knows s a e ≡ false
unfolding knows knows_in
knows-none s a e q = rw q

fresh-Mirrors :
    (a : ℕ) (s : Store) → s a ≡ none → Mirrors s → Mirrors (update s a (some new_object))
fresh-Mirrors a s q m = record {
  known = λ e v h n.
      ground
        (arith, registered-fresh a s e v h, knows-fresh a s h e, knows-none s a e q, m.known e v h);
}

create-Mirrors : (a : ℕ) (s s' : Store) → Mirrors s → create a s ≡ some s' → Mirrors s'
unfolding create
create-Mirrors a s s' m p = elim (Option-cases (s a)) [
  | inl q ↦ subst Mirrors (some-injective _ _ (rw (q, create) at p)) (fresh-Mirrors a s q m)
  | inr (o, q) ↦ absurd (none-ne-some s' (rw (q, create) at p))
]

perform-Mirrors : (x : Act) (s s' : Store) → Mirrors s → perform x s ≡ some s' → Mirrors s'
unfolding perform
perform-Mirrors (act_create a) = create-Mirrors a
perform-Mirrors (act_connect e v h c) = connect_to-Mirrors e v h c
perform-Mirrors (act_destroy a) = destroy-Mirrors a

run_from-Mirrors : (xs : List Act) (s s' : Store) → Mirrors s → run xs s ≡ some s' → Mirrors s'
unfolding run
run_from-Mirrors [] s s' m p = subst Mirrors (some-injective _ _ p) m
run_from-Mirrors (x ∷ xs) s s' m p =
    let (t, q, r) = bind_some (perform x s) (run xs) p in
    run_from-Mirrors xs t s' (perform-Mirrors x s t m q) r

-- After any creations, subscriptions and destructions that read no dead object, from no objects on: a
-- handler knows each emitter that has a callback for it.
pub run-Mirrors : (xs : List Act) (s : Store) → run xs empty_store ≡ some s → Mirrors s
run-Mirrors xs s p = run_from-Mirrors xs empty_store s empty-Mirrors p

bind-some_right : (o : Option Store) → (o >>= some) ≡ o
bind-some_right none = refl
bind-some_right (some s) = refl

run-append : (xs : List Act) (x : Act) (s : Store) → run (xs ++ x ∷ []) s ≡ (run xs s >>= perform x)
unfolding run
run-append [] x s = bind-some_right (perform x s)
run-append (y ∷ xs) x s = elim (Option-cases (perform y s)) [
  | inl n ↦ rw n
  | inr (t, q) ↦ rw q (run-append xs x t)
]

-- After such calls, once an object is destroyed, no emitter has a callback left that is registered for
-- it.
pub no_dangling_callback :
    (xs : List Act) (a : ℕ) (s : Store)
    → run (xs ++ act_destroy a ∷ []) empty_store ≡ some s
    → (e v : ℕ) → registered s e v a ≡ none
unfolding perform
no_dangling_callback xs a s p e v =
    let (t, q, r) =
      bind_some (run xs empty_store) (perform (act_destroy a))
        (sym (run-append xs (act_destroy a) empty_store) ∙ p) in
    destroy-registered a t s (run-Mirrors xs t q) r e v a ∙ ground arith
