-- ===== src/Dbus/Connection/Forward.antt =====
-- dbus/connection.cpp: the order of the states of a connection.
use firmir.Base.{
  ℕ, zero, suc, ◌≤◌, ◌≡◌, arith, true, Option, none, some, List, [], ◌∷◌, ◌++◌, codes, take,
  same_bytes, ◌==◌, ◌||◌, Bool-cases, inl, inr,
}
use firmir.Dbus.Message.Header
use firmir.Dbus.Message.Header.{method_return}
use firmir.Dbus.Message.Private.{
  MessagePrivate, ReadResult, got, nothing, Io, returned, halted, ReadFdRes, success, failure,
  would_block_res, would_block, serialize,
}
use firmir.Dbus.Message.Api.{Extracted, extracted, broken_off}
use firmir.Dbus.Connection.{
  State, connecting, auth, getting_name, connected, error_state, same_state, is_ready, System,
  update_state, named, handle_get_name_response, with_result, on_hello, finished, set_message,
  set_message_from, erasing, answer_to, reply_for, handle_bus_msg, send, send_as, send_bytes,
  written, hello_msg, hello_sent, do_get_name, begun_with, finish_auth, keep_char, read_char,
  do_auth, fresh_msg, received, read_data,
}

-- How far a connection has come.
unfoldable pub rank : State → ℕ
rank connecting = 0
rank auth = 1
rank getting_name = 2
rank connected = 3
rank error_state = 4

same_state-rank : (a b : State) → same_state a b ≡ true → rank a ≡ rank b
unfolding same_state rank
same_state-rank a b h = ground (arith)

module _ {W : Type 0} where
  abbrev pub state_of : System W → State
  state_of s = s.connection.state

  -- A run that returns has come at least as far as `p`.
  abbrev pub Reaches : {A : Type 0} → ℕ → Io (System W) A → Type 0
  Reaches p (returned a s) = p ≤ rank (state_of s)
  Reaches p (halted e) = Unit {0}

  update_state-rank : (v : State) (s : System W) → rank (state_of (update_state v s)) ≡ rank v
  unfolding update_state
  update_state-rank v s = elim (Bool-cases (same_state (state_of s) v)) [
    | inl t ↦ rw t (same_state-rank (state_of s) v t)
    | inr f ↦ rw f
  ]

  fail-Reaches : (p : ℕ) (s : System W) → p ≤ 4 → p ≤ rank (state_of (update_state error_state s))
  unfolding rank
  fail-Reaches p s h = omega (arith, update_state-rank error_state s)

  named-Reaches : (p h : ℕ) (s : System W) (x : Extracted) → p ≤ 3 → Reaches p (named h s x)
  unfolding rank
  named-Reaches p h s (broken_off e) b = tt
  named-Reaches p h s (extracted name m) b = elim (Bool-cases m.valid) [
    | inl t ↦ rw t (rw (update_state-rank connected _) b)
    | inr f ↦ rw f (fail-Reaches p _ (omega arith))
  ]

  handle_get_name_response-Reaches :
      (p h : ℕ) (m : MessagePrivate) (s : System W)
      → p ≤ 3
      → Reaches p (handle_get_name_response h m s)
  unfolding handle_get_name_response
  handle_get_name_response-Reaches p h m s b =
      elim (Bool-cases (m.fixed_header.type == Header.error)) [
        | inl t ↦ rw t (fail-Reaches p _ (omega arith))
        | inr f ↦ rw f (named-Reaches p h s _ b)
      ]

  with_result-Reaches :
      (p h : ℕ) (o : Option MessagePrivate) (s : System W) → p ≤ 3 → Reaches p (with_result h o s)
  with_result-Reaches p h none s b = fail-Reaches p _ (omega arith)
  with_result-Reaches p h (some m) s b = handle_get_name_response-Reaches p h m s b

  on_hello-Reaches : (p h : ℕ) (s : System W) → p ≤ rank (state_of s) → Reaches p (on_hello h s)
  unfolding on_hello rank
  on_hello-Reaches p h s b = elim (Bool-cases (same_state (state_of s) getting_name)) [
    | inl t ↦
        rw t
          (with_result-Reaches p h _ s (omega (arith, same_state-rank (state_of s) getting_name t)))
    | inr f ↦ rw f b
  ]

  finished-Reaches :
      (p h : ℕ) (o : Option ℕ) (s : System W) → p ≤ rank (state_of s) → Reaches p (finished h o s)
  finished-Reaches p h none s b = b
  finished-Reaches p h (some i) s b = elim (Bool-cases (h == i)) [
    | inl t ↦ rw t (on_hello-Reaches p h s b)
    | inr f ↦ rw f b
  ]

  set_message-Reaches :
      (p h : ℕ) (m : MessagePrivate) (o : Option MessagePrivate) (s : System W)
      → p ≤ rank (state_of s)
      → Reaches p (set_message_from o h m s)
  set_message-Reaches p h m (some old) s b = b
  set_message-Reaches p h m none s b = finished-Reaches p h _ _ b

  erasing-Reaches : (p n : ℕ) (x : Io (System W) (Unit {0})) → Reaches p x → Reaches p (erasing n x)
  erasing-Reaches p n (returned u s) b = b
  erasing-Reaches p n (halted e) b = b

  answer_to-Reaches :
      (p n : ℕ) (o : Option ℕ) (m : MessagePrivate) (s : System W)
      → p ≤ rank (state_of s)
      → Reaches p (answer_to n o m s)
  unfolding set_message
  answer_to-Reaches p n none m s b = b
  answer_to-Reaches p n (some h) m s b = erasing-Reaches p n _ (set_message-Reaches p h m _ s b)

  reply_for-Reaches :
      (p : ℕ) (o : Option ℕ) (m : MessagePrivate) (s : System W)
      → p ≤ rank (state_of s)
      → Reaches p (reply_for o m s)
  reply_for-Reaches p none m s b = b
  reply_for-Reaches p (some n) m s b = answer_to-Reaches p n _ m s b

  handle_bus_msg-Reaches :
      (p : ℕ) (m : MessagePrivate) (s : System W)
      → p ≤ rank (state_of s)
      → Reaches p (handle_bus_msg m s)
  unfolding handle_bus_msg
  handle_bus_msg-Reaches p m s b =
      elim (Bool-cases
        ((m.fixed_header.type == method_return) || (m.fixed_header.type == Header.error))) [
          | inl t ↦ rw t (reply_for-Reaches p _ m s b)
          | inr f ↦ rw f b
        ]

  fresh_msg-Reaches : (p : ℕ) (x : Io (System W) (Unit {0})) → Reaches p x → Reaches p (fresh_msg x)
  fresh_msg-Reaches p (returned u s) b = b
  fresh_msg-Reaches p (halted e) b = b

module _ {W : Type 0} (read : W → ℕ → ReadResult × W) (write : W → List ℕ → Option ℕ × W) where
  send_bytes-Reaches :
      (p : ℕ) (x : List ℕ × MessagePrivate) (s : System W)
      → p ≤ rank (state_of s)
      → Reaches p (send_bytes read write x s)
  send_bytes-Reaches p ([], m) s b = b
  send_bytes-Reaches p (c ∷ cs, m) s b = go (write s.kernel (c ∷ cs))
    where
      go : (o : Option ℕ × W) → Reaches p (written read write m s o)
      go (none, w) = b
      go (some k, w) = b

  send_as-Reaches :
      (p : ℕ) (o : Option ℕ) (m : MessagePrivate) (s : System W)
      → p ≤ rank (state_of s)
      → Reaches p (send_as read write o m s)
  send_as-Reaches p none m s b = tt
  send_as-Reaches p (some n) m s b = send_bytes-Reaches p (serialize _) _ b

  send-Reaches :
      (p : ℕ) (m : MessagePrivate) (s : System W)
      → p ≤ rank (state_of s)
      → Reaches p (send read write m s)
  unfolding send
  send-Reaches p m s b = elim (Bool-cases (is_ready (state_of s))) [
    | inl t ↦ rw t (send_as-Reaches p _ m s b)
    | inr f ↦ rw f b
  ]

  hello_sent-Reaches :
      (p : ℕ) (x : Io (System W) (Option ℕ × MessagePrivate))
      → p ≤ 4
      → Reaches p x
      → Reaches p (hello_sent read write x)
  hello_sent-Reaches p (halted e) h b = tt
  hello_sent-Reaches p (returned (none, m) s) h b = fail-Reaches p s h
  hello_sent-Reaches p (returned (some i, m) s) h b = b

  do_get_name-Reaches : (p : ℕ) (s : System W) → p ≤ 2 → Reaches p (do_get_name read write s)
  unfolding do_get_name rank
  do_get_name-Reaches p s h =
      hello_sent-Reaches p _ (omega arith)
        (send-Reaches p hello_msg _ (omega (arith, update_state-rank getting_name s)))

  finish_auth-Reaches : (p : ℕ) (s : System W) → p ≤ 2 → Reaches p (finish_auth read write s)
  unfolding finish_auth
  finish_auth-Reaches p s h =
      elim (Bool-cases (same_bytes (take 2 s.connection.auth_data) (codes "OK"))) [
        | inl t ↦ rw t (go (write s.kernel (codes "BEGIN" ++ 13 ∷ 10 ∷ [])))
        | inr f ↦ rw f (fail-Reaches p _ (omega arith))
      ]
    where
      go : (o : Option ℕ × W) → Reaches p (begun_with read write s o)
      go (none, w) = fail-Reaches p _ (omega arith)
      go (some k, w) = do_get_name-Reaches p _ h

  keep_char-rank : (c : ℕ) (s : System W) → rank (state_of (keep_char c s)) ≡ rank (state_of s)
  unfolding keep_char
  keep_char-rank c s = elim (Bool-cases (c == 13)) [ inl t ↦ rw t | inr f ↦ rw f ]

  do_auth-Reaches :
      (fuel p : ℕ) (s : System W)
      → p ≤ 2
      → p ≤ rank (state_of s)
      → Reaches p (do_auth read write fuel s)
  unfolding do_auth
  do_auth-Reaches zero p s h b = tt
  do_auth-Reaches (suc fuel) p s h b = go (do_auth-Reaches fuel p) (read s.kernel 1)
    where
      go :
          ((s' : System W)
            → p ≤ 2
            → p ≤ rank (state_of s')
            → Reaches p (do_auth read write fuel s'))
          → (o : ReadResult × W) → Reaches p (read_char read write (do_auth read write fuel) s o)
      go ih (nothing e, w) = elim (Bool-cases (would_block e)) [
        | inl t ↦ rw t b
        | inr f ↦ rw f (fail-Reaches p _ (omega arith))
      ]
      go ih (got [], w) = fail-Reaches p _ (omega arith)
      go ih (got (c ∷ cs), w) = elim (Bool-cases (c == 10)) [
        | inl t ↦ rw t (finish_auth-Reaches p _ h)
        | inr f ↦ rw f (ih _ h (omega (arith, keep_char-rank c (record s { kernel = w }))))
      ]

  received-Reaches :
      (p : ℕ) (s : System W) (x : Io W (ReadFdRes × MessagePrivate))
      → p ≤ 4
      → p ≤ rank (state_of s)
      → Reaches p (received read write s x)
  received-Reaches p s (halted e) h b = tt
  received-Reaches p s (returned (success, m) w) h b =
      fresh_msg-Reaches p _ (handle_bus_msg-Reaches p m _ b)
  received-Reaches p s (returned (failure, m) w) h b = fail-Reaches p _ h
  received-Reaches p s (returned (would_block_res, m) w) h b = b

  rank-le : (v : State) → rank v ≤ 4
  unfolding rank
  rank-le v = ground arith

  -- `readData`, where it returns, whatever the kernel does, leaves the state or moves it forward in the
  -- order Connecting, Auth, GettingName, Connected, Error; so a connection in error stays there.
  pub read_data-Reaches :
      (fuel : ℕ) (s : System W) → Reaches (rank s.connection.state) (read_data read write fuel s)
  unfolding read_data rank
  read_data-Reaches fuel s = elim (Bool-cases (same_state (state_of s) auth)) [
    | inl t ↦ rw t (
        do_auth-Reaches fuel _ s (omega (arith, same_state-rank (state_of s) auth t)) (omega arith))
    | inr f ↦ elim (Bool-cases (is_ready (state_of s))) [
      | inl r ↦ rw (f, r) (received-Reaches _ s _ (rank-le (state_of s)) (omega arith))
      | inr g ↦ rw (f, g) (omega arith)
    ]
  ]
