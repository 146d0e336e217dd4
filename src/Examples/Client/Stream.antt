-- ===== src/Examples/Client/Stream.antt =====
-- examples/dbus/main.cpp over a descriptor that delivers a stream of bytes.
use firmir.Base.{
  ap, ℕ, zero, suc, ◌+◌, ◌-◌, ◌≤◌, ◌<◌, ◌≡◌, ◌≢◌, refl, sym, ◌∙◌, arith, false, List, [], ◌∷◌, ◌++◌,
  append_assoc, append-nil, length, length-append, All, drop, ◌==◌, lt→ltb, le→ltb_false,
  if◌then◌else◌,
}
use firmir.Examples.Client.{
  Reading, got, Run, ran, ◌>>=◌, exact_rest, exact_round, read_exact, line_char, read_line,
}

-- What the code relies on of a blocking `read`: `pending` is what the stream still has, in order. A
-- call for some bytes returns one of them at least, and no more than it asked for, while there are any.
pub record Stream {W : Type 0} (read : W → ℕ → Reading × W) : Type 0 where
  pub pending : W → List ℕ
  pub delivers :
      (w : W) (n : ℕ)
      → 0 < n
      → 0 < length (pending w)
      → (bs : List ℕ) × (w' : W) × ((read w n ≡ (got bs, w'))
          × ((pending w ≡ bs ++ pending w') × ((0 < length bs) × (length bs ≤ n))))

-- A part of a list that begins both of two divisions of it.
split_front :
    (cs x ys rest : List ℕ)
    → cs ++ x ≡ ys ++ rest
    → length cs ≤ length ys
    → (ys ≡ cs ++ drop (length cs) ys) × (x ≡ drop (length cs) ys ++ rest)
split_front [] x ys rest e h = (refl, e)
split_front (c ∷ cs) x [] rest e h = absurd (omega arith)
split_front (c ∷ cs) x (y ∷ ys) rest e h =
    let (a, b) = split_front cs x ys rest (cc e) (omega arith) in (cc (a, e), b)

exact_round_lem :
    {W : Type 0} (read : W → ℕ → Reading × W) (again : List ℕ → W → Run W (List ℕ))
    (acc cs : List ℕ) (w : W)
    → 0 < length cs
    → exact_round read again acc (got cs, w) ≡ again (acc ++ cs) w
exact_round_lem read again acc [] w h = absurd (omega arith)
exact_round_lem read again acc (c ∷ cs) w h = refl

module _ {W : Type 0} (read : W → ℕ → Reading × W) (stream : Stream read) where
  open stream use {pending, delivers}

  -- The code takes `bs` off the stream and gives `a`.
  abbrev pub Takes : {A : Type 0} → (W → Run W A) → A → List ℕ → List ℕ → W → Type 0
  Takes m a bs rest w =
      (pending w ≡ bs ++ rest) → (w' : W) × ((m w ≡ ran a w') × (pending w' ≡ rest))

  -- The same bytes in another form.
  pub Takes-same :
      {A : Type 0} (m : W → Run W A) (a : A) (xs ys rest : List ℕ) (w : W)
      → xs ≡ ys
      → Takes m a ys rest w
      → Takes m a xs rest w
  Takes-same m a xs ys rest w e t p = t (p ∙ ap (λ (zs : List ℕ). zs ++ rest) e)

  pub bind-Takes :
      {A B : Type 0} (m : W → Run W A) (f : A → W → Run W B) (a : A) (b : B) (xs ys rest : List ℕ)
      (w : W)
      → Takes m a xs (ys ++ rest) w
      → ((w' : W) → Takes (f a) b ys rest w')
      → Takes (m >>= f) b (xs ++ ys) rest w
  bind-Takes m f a b xs ys rest w t k p =
      let (w1, (e1, p1)) = t (p ∙ append_assoc xs ys rest) in
      let (w2, (e2, p2)) = k w1 p1 in (w2, (rw (◌>>=◌, e1, e2), p2))

  -- A round that gives bytes.
  exact_step :
      (fuel n : ℕ) (acc cs : List ℕ) (w w' : W)
      → length acc < n
      → 0 < length cs
      → read w (n - length acc) ≡ (got cs, w')
      → exact_rest read (suc fuel) n acc w ≡ exact_rest read fuel n (acc ++ cs) w'
  unfolding exact_rest
  exact_step fuel n acc cs w w' h k e =
      rw (lt→ltb (length acc) n h, e) (exact_round_lem read (exact_rest read fuel n) acc cs w' k)

  exact_more :
      (fuel n : ℕ) (acc bs rest : List ℕ) (w : W)
      → length acc + length bs ≡ n
      → 0 < length bs
      → length bs ≤ suc fuel
      → ((acc' ds : List ℕ) (w' : W)
          → length acc' + length ds ≡ n
          → length ds ≤ fuel
          → Takes (exact_rest read fuel n acc') (acc' ++ ds) ds rest w')
      → Takes (exact_rest read (suc fuel) n acc) (acc ++ bs) bs rest w
  exact_more fuel n acc bs rest w h k l again p =
      go (
        delivers w (n - length acc) (omega (arith, h))
          (rw p (omega (arith, length-append bs rest))))
    where
      go :
          (cs : List ℕ) × (w' : W) × ((read w (n - length acc) ≡ (got cs, w'))
              × ((pending w ≡ cs ++ pending w') × ((0 < length cs) × (length cs ≤ n - length acc))))
          → (w' : W) × ((exact_rest read (suc fuel) n acc w ≡ ran (acc ++ bs) w')
              × (pending w' ≡ rest))
      go (cs, w', (e, (q, (lo, hi)))) =
          let (s1, s2) = split_front cs (pending w') bs rest (sym q ∙ p) (omega (arith, hi, h)) in
          let ds = drop (length cs) bs in
          let long : length bs ≡ length cs + length ds = ap length s1 ∙ length-append cs ds in
          let (w2, (e2, p2)) =
            again (acc ++ cs) ds w' (omega (arith, length-append acc cs, long, h))
              (omega (arith, long, lo, l)) s2 in
          let whole : (acc ++ cs) ++ ds ≡ acc ++ bs = rw (append_assoc acc cs ds, ← s1) in
          (w2, (exact_step fuel n acc cs w w' (omega (arith, h)) lo e ∙ rw whole at e2, p2))

  -- The rest of the bytes that are wanted.
  exact_rest-Takes :
      (fuel n : ℕ) (acc bs rest : List ℕ) (w : W)
      → length acc + length bs ≡ n
      → length bs ≤ fuel
      → Takes (exact_rest read fuel n acc) (acc ++ bs) bs rest w
  unfolding exact_rest
  exact_rest-Takes zero n acc [] rest w h l p =
      (w, (rw (le→ltb_false (length acc) n (omega arith), append-nil) refl, p))
  exact_rest-Takes (suc fuel) n acc [] rest w h l p =
      (w, (rw (le→ltb_false (length acc) n (omega arith), append-nil) refl, p))
  exact_rest-Takes zero n acc (b ∷ bs) rest w h l p = absurd (omega arith)
  exact_rest-Takes (suc fuel) n acc (b ∷ bs) rest w h l p =
      exact_more fuel n acc (b ∷ bs) rest w h (omega arith) l
        (λ acc' ds w' h' l'. exact_rest-Takes fuel n acc' ds rest w' h' l') p

  pub read_exact-Takes :
      (bs rest : List ℕ) (n : ℕ) (w : W) → length bs ≡ n → Takes (read_exact read n) bs bs rest w
  unfolding read_exact
  read_exact-Takes bs rest n w h =
      exact_rest-Takes n n [] bs rest w (omega (arith, h)) (omega (arith, h))

  one_char :
      (c : ℕ) (rest : List ℕ) (w : W)
      → pending w ≡ c ∷ rest
      → (w' : W) × ((read w 1 ≡ (got (c ∷ []), w')) × (pending w' ≡ rest))
  one_char c rest w p = go (delivers w 1 (omega arith) (rw p (omega arith)))
    where
      go :
          (bs : List ℕ) × (w' : W) × ((read w 1 ≡ (got bs, w'))
              × ((pending w ≡ bs ++ pending w') × ((0 < length bs) × (length bs ≤ 1))))
          → (w' : W) × ((read w 1 ≡ (got (c ∷ []), w')) × (pending w' ≡ rest))
      go ([], w', (e, (q, (lo, hi)))) = absurd (omega arith)
      go (d ∷ [], w', (e, (q, (lo, hi)))) = (w', (cc (e, q, p), cc (q, p)))
      go (d ∷ f ∷ bs, w', (e, (q, (lo, hi)))) = absurd (omega arith)

  line_step :
      (fuel : ℕ) (line : List ℕ) (c : ℕ) (w w' : W)
      → c ≢ 10
      → c ≢ 13
      → read w 1 ≡ (got (c ∷ []), w')
      → read_line read (suc fuel) line w ≡ read_line read fuel (line ++ c ∷ []) w'
  unfolding read_line
  line_step fuel line c w w' k1 k2 e =
      let ten : (c == 10) ≡ false = ground (arith, k1) in
      let thirteen : (c == 13) ≡ false = ground (arith, k2) in
      rw (e, line_char, ten, if◌then◌else◌, thirteen)

  -- A line and its end.
  pub read_line-Takes :
      (fuel : ℕ) (line cs rest : List ℕ) (w : W)
      → All (λ c. (c ≢ 10) × (c ≢ 13)) cs
      → length cs + 2 ≤ fuel
      → Takes (read_line read fuel line) (line ++ cs) (cs ++ 13 ∷ 10 ∷ []) rest w
  unfolding read_line
  read_line-Takes zero line cs rest w k l p = absurd (omega arith)
  read_line-Takes (suc zero) line cs rest w k l p = absurd (omega arith)
  read_line-Takes (suc (suc fuel)) line [] rest w k l p =
      let (w1, (e1, p1)) = one_char 13 (10 ∷ rest) w p in
      let (w2, (e2, p2)) = one_char 10 rest w1 p1 in
      (w2, (rw (e1, line_char, e2, append-nil) refl, p2))
  read_line-Takes (suc (suc fuel)) line (c ∷ cs) rest w ((k1, k2), k) l p =
      let (w1, (e1, p1)) = one_char c ((cs ++ 13 ∷ 10 ∷ []) ++ rest) w p in
      let (w2, (e2, p2)) =
        read_line-Takes (suc fuel) (line ++ c ∷ []) cs rest w1 k (omega arith) p1 in
      (
        w2,
        (line_step (suc fuel) line c w w1 k1 k2 e1 ∙ rw (append_assoc line (c ∷ []) cs) at e2, p2),
      )
