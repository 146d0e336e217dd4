-- ===== src/Dbus/Connection/Opening/Start.antt =====
-- `ConnectionPrivate::startConnect` of dbus/connection.cpp: where it leaves a connection.
use firmir.Base.{
  ℕ, ◌≡◌, refl, ◌∙◌, ap, arith, Bool, true, false, Option, none, some, List, [], ◌∷◌, ◌++◌, take,
  append_assoc, codes, ◌⊎◌, ◌==◌, Bool-cases, inl, inr,
}
use firmir.Dbus.Connection.{auth, error_state, System, update_state}
use firmir.Dbus.Connection.States.{update_state_lem}
use firmir.Dbus.Connection.Opening.{
  BusType, get_path, uid_to_hex, auth_cmd, fail, authenticated, greeted, connected_to, opened,
  start_connect,
}

-- The socket's bytes so far: `write` adds those that it takes, the other calls none.
pub record Recorded {W : Type 0} (socket : W → Bool × W) (nonblock : W → W)
    (connect : W → List ℕ → Bool × W) (watch : W → W) (write : W → List ℕ → Option ℕ × W)
    : Type 0 where
  pub sent : W → List ℕ
  pub socket_keeps : (w : W) → sent (socket w).1 ≡ sent w
  pub nonblock_keeps : (w : W) → sent (nonblock w) ≡ sent w
  pub connect_keeps : (w : W) (path : List ℕ) → sent (connect w path).1 ≡ sent w
  pub watch_keeps : (w : W) → sent (watch w) ≡ sent w
  pub adds :
      (w : W) (bs : List ℕ) (k : ℕ) (w' : W)
      → write w bs ≡ (some k, w')
      → sent w' ≡ sent w ++ take k bs

one : (k : ℕ) → (k == 1) ≡ true → k ≡ 1
one k h = ground arith

-- The line `AUTH EXTERNAL` with the number of the user.
abbrev pub auth_line : ℕ → List ℕ
auth_line uid = codes "AUTH EXTERNAL " ++ (uid_to_hex uid ++ 13 ∷ 10 ∷ [])

-- The latest call is one of `write` with the whole line, over a socket that has `bs` and the zero byte.
-- It did not fail, and behind these the socket now has what it took of the line.
pub Asks :
    {W : Type 0} → (W → List ℕ → Option ℕ × W) → (W → List ℕ) → ℕ → List ℕ → System W → Type 0
Asks {W} write sent uid bs s =
    (s.connection.state ≡ auth)
    × ((w : W) × (k : ℕ) × (sent w ≡ bs ++ 0 ∷ [])
        × (write w (auth_line uid) ≡ (some k, s.kernel))
        × (sent s.kernel ≡ bs ++ 0 ∷ take k (auth_line uid)))

module _ {W : Type 0} (socket : W → Bool × W) (nonblock : W → W) (connect : W → List ℕ → Bool × W)
    (watch : W → W) (write : W → List ℕ → Option ℕ × W)
    (recorded : Recorded socket nonblock connect watch write) where
  abbrev pub Outcome : ℕ → List ℕ → System W → Type 0
  Outcome uid bs s = (s.connection.state ≡ error_state) ⊎ Asks write recorded.sent uid bs s

  fail-Outcome :
      (uid : ℕ) (bs : List ℕ) (s : System W) (w : W)
      → Outcome uid bs (fail socket nonblock connect watch write s w)
  fail-Outcome uid bs s w = inl (update_state_lem error_state (record s { kernel = w }))

  authenticated-Outcome :
      (uid : ℕ) (bs : List ℕ) (s : System W) (w : W)
      → s.connection.state ≡ auth
      → recorded.sent w ≡ bs ++ 0 ∷ []
      → Outcome uid bs
          (authenticated socket nonblock connect watch write s (write w (auth_cmd uid)))
  unfolding Asks auth_cmd
  authenticated-Outcome uid bs s w a q = go (write w (auth_line uid)) refl
    where
      go :
          (o : Option ℕ × W)
          → write w (auth_line uid) ≡ o
          → Outcome uid bs (authenticated socket nonblock connect watch write s o)
      go (none, w') e = fail-Outcome uid bs s w'
      go (some k, w') e = inr (
        a,
        (
          w,
          k,
          q,
          e,
          recorded.adds w (auth_line uid) k w' e
              ∙ (ap (λ x. x ++ take k (auth_line uid)) q
                  ∙ append_assoc bs (0 ∷ []) (take k (auth_line uid))),
        ),
      )

  greeted-Outcome :
      (uid : ℕ) (bs : List ℕ) (s : System W) (w : W)
      → recorded.sent w ≡ bs
      → Outcome uid bs (greeted socket nonblock connect watch write uid s (write w (0 ∷ [])))
  greeted-Outcome uid bs s w q = go (write w (0 ∷ [])) refl
    where
      go :
          (o : Option ℕ × W)
          → write w (0 ∷ []) ≡ o
          → Outcome uid bs (greeted socket nonblock connect watch write uid s o)
      go (none, w') e = fail-Outcome uid bs s w'
      go (some k, w') e = elim (Bool-cases (k == 1)) [
        | inl t ↦ rw t (
            authenticated-Outcome uid bs (update_state auth (record s { kernel = w' })) w'
              (update_state_lem auth (record s { kernel = w' }))
              (recorded.adds w (0 ∷ []) k w' e
                ∙ ap (λ xs. xs ++ take k (0 ∷ [])) q
                ∙ ap (λ n. bs ++ take n (0 ∷ [])) (one k t)))
        | inr f ↦ rw f (fail-Outcome uid bs s w')
      ]

  -- Whatever the kernel does, `startConnect` ends in the state Error, or in Auth: then the zero byte is on
  -- the socket, and the last thing done was a call of `write` with the whole line `AUTH EXTERNAL` and the
  -- number of the user, which did not fail; behind the zero byte stand as many bytes of the line as that
  -- call has taken.
  pub start_connect_lem :
      (type : BusType) (uid : ℕ) (env : Option (List ℕ)) (s : System W)
      → Outcome uid
          (recorded.sent s.kernel)
          (start_connect socket nonblock connect watch write type uid env s)
  unfolding start_connect
  start_connect_lem type uid env s = at_socket (socket s.kernel) (recorded.socket_keeps s.kernel)
    where
      at_connect :
          (o : Bool × W)
          → recorded.sent o.1 ≡ recorded.sent s.kernel
          → Outcome uid
              (recorded.sent s.kernel)
              (connected_to socket nonblock connect watch write uid s o)
      at_connect (false, w) q = fail-Outcome uid (recorded.sent s.kernel) s w
      at_connect (true, w) q =
          greeted-Outcome uid (recorded.sent s.kernel) s (watch w) (recorded.watch_keeps w ∙ q)

      at_socket :
          (o : Bool × W)
          → recorded.sent o.1 ≡ recorded.sent s.kernel
          → Outcome uid
              (recorded.sent s.kernel)
              (opened socket nonblock connect watch write uid (get_path type uid env) s o)
      at_socket (false, w) q = fail-Outcome uid (recorded.sent s.kernel) s w
      at_socket (true, w) q = at_connect (connect (nonblock w) (take 107 (get_path type uid env))) (
          recorded.connect_keeps (nonblock w) (take 107 (get_path type uid env))
          ∙ (recorded.nonblock_keeps w ∙ q))
