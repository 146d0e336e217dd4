-- ===== src/Core/Logging/Streams.antt =====
-- core/firmir-logging.cpp: what a whole statement writes.
use firmir.Base.{
  Bool, true, false, Option, none, some, List, [], ◌∷◌, ◌++◌, append-nil, append_assoc, ℕ, ◌≡◌,
  refl, sym, ap, ◌∙◌,
}
use firmir.Core.Logging.{
  Category, debug, warning, error, info, Console, remembered, enabled, when_enabled, put, prefix_of,
  spaced, closing, begin, write, end, write_all, log,
}

-- The text of a statement: the prefix, each value with a blank behind it, and the end.
unfoldable pub values : List (List ℕ) → List ℕ
values [] = []
values (s ∷ ss) = spaced s ++ values ss

abbrev pub line : Category → List (List ℕ) → List ℕ
line k ss = prefix_of k ++ (values ss ++ closing)

put_twice : (k : Category) (a b : List ℕ) (c : Console) → put k b (put k a c) ≡ put k (a ++ b) c
unfolding put
put_twice debug a b c = ap (λ x. record c { out = x }) (append_assoc c.out a b)
put_twice warning a b c = ap (λ x. record c { out = x }) (append_assoc c.out a b)
put_twice error a b c = ap (λ x. record c { err = x }) (append_assoc c.err a b)
put_twice info a b c = ap (λ x. record c { out = x }) (append_assoc c.out a b)

put_nil : (k : Category) (c : Console) → put k [] c ≡ c
unfolding put
put_nil debug c = ap (λ x. record c { out = x }) (append-nil c.out)
put_nil warning c = ap (λ x. record c { out = x }) (append-nil c.out)
put_nil error c = ap (λ x. record c { err = x }) (append-nil c.err)
put_nil info c = ap (λ x. record c { out = x }) (append-nil c.out)

-- The test of a category has been made, with the result `b`.
abbrev Settled : Category → Bool → Console → Type 0
Settled debug b c = c.debug_enabled ≡ some b
Settled warning b c = b ≡ true
Settled error b c = b ≡ true
Settled info b c = b ≡ true

settled :
    (env : Option (List ℕ)) (k : Category) (b : Bool) (c : Console)
    → Settled k b c
    → enabled env k c ≡ (b, c)
unfolding enabled
settled env debug b c h = rw h
settled env warning b c h = rw h
settled env error b c h = rw h
settled env info b c h = rw h

put-Settled :
    (k : Category) (b : Bool) (s : List ℕ) (c : Console) → Settled k b c → Settled k b (put k s c)
unfolding put
put-Settled debug b s c h = h
put-Settled warning b s c h = h
put-Settled error b s c h = h
put-Settled info b s c h = h

when_enabled-Settled :
    (k : Category) (b : Bool) (s : List ℕ) (c : Console)
    → Settled k b c
    → Settled k b (when_enabled k s (b, c))
when_enabled-Settled k true s c h = put-Settled k true s c h
when_enabled-Settled k false s c h = h

remembered-Settled :
    (env : Option (List ℕ)) (c : Console) (o : Option Bool)
    → c.debug_enabled ≡ o
    → (remembered env c o).1.debug_enabled ≡ some (remembered env c o).0
remembered-Settled env c none h = refl
remembered-Settled env c (some b) h = h

enabled-Settled :
    (env : Option (List ℕ)) (k : Category) (c : Console)
    → Settled k (enabled env k c).0 (enabled env k c).1
unfolding enabled
enabled-Settled env debug c = remembered-Settled env c c.debug_enabled refl
enabled-Settled env warning c = refl
enabled-Settled env error c = refl
enabled-Settled env info c = refl

when_enabled_twice :
    (k : Category) (b : Bool) (s t : List ℕ) (c : Console)
    → when_enabled k t (b, when_enabled k s (b, c)) ≡ when_enabled k (s ++ t) (b, c)
when_enabled_twice k true s t c = put_twice k s t c
when_enabled_twice k false s t c = refl

when_enabled_nil : (k : Category) (b : Bool) (c : Console) → c ≡ when_enabled k [] (b, c)
when_enabled_nil k true c = sym (put_nil k c)
when_enabled_nil k false c = refl

write_all_lem :
    (env : Option (List ℕ)) (k : Category) (b : Bool) (ss : List (List ℕ)) (c : Console)
    → Settled k b c
    → write_all env k ss c ≡ when_enabled k (values ss) (b, c)
unfolding write_all write values
write_all_lem env k b [] c h = when_enabled_nil k b c
write_all_lem env k b (s ∷ ss) c h = rw (settled env k b c h) (
    write_all_lem env k b ss _ (when_enabled-Settled k b (spaced s) c h)
    ∙ when_enabled_twice k b (spaced s) (values ss) c)

end_lem :
    (env : Option (List ℕ)) (k : Category) (b : Bool) (c : Console)
    → Settled k b c
    → end env k c ≡ when_enabled k closing (b, c)
unfolding end
end_lem env k b c h = rw (settled env k b c h)

-- A statement writes its whole text, from the prefix to the end of the line, to the stream of its
-- category if that is enabled as the statement begins, and nothing at all otherwise.
pub log_lem :
    (env : Option (List ℕ)) (k : Category) (ss : List (List ℕ)) (c : Console)
    → log env k ss c ≡ when_enabled k (line k ss) (enabled env k c)
unfolding log begin
log_lem env k ss c =
    let b = (enabled env k c).0 in
    let c0 = (enabled env k c).1 in
    let h = enabled-Settled env k c in
    let h1 = when_enabled-Settled k b (prefix_of k) c0 h in
    let e1 = write_all_lem env k b ss _ h1 in
    let h2 = when_enabled-Settled k b (values ss) _ h1 in
    ap (end env k) e1
    ∙ (end_lem env k b _ h2
        ∙ (when_enabled_twice k b (values ss) closing _
            ∙ when_enabled_twice k b (prefix_of k) (values ss ++ closing) c0))

-- A debug line reads `LOG_LEVEL` once: from then on the test has the same result and changes nothing,
-- whatever the environment holds.
pub enabled_once :
    (env later : Option (List ℕ)) (c : Console)
    → enabled later debug (enabled env debug c).1 ≡ enabled env debug c
enabled_once env later c =
    settled later debug (enabled env debug c).0 (enabled env debug c).1
      (enabled-Settled env debug c)
