-- ===== src/Dbus/Connection/Authentication.antt =====
-- `ConnectionPrivate::doAuth` of dbus/connection.cpp: how far it runs.
use firmir.Base.{
  ℕ, zero, suc, ◌^◌, ◌<◌, ◌≡◌, refl, ap, arith, Option, none, some, List, [], ◌∷◌, ◌++◌, codes,
  length, length-append, take, same_bytes, ◌==◌, Bool-cases, inl, inr,
}
use firmir.Dbus.Message.Private.{MessagePrivate, ReadResult, got, nothing, Io, returned, halted}
use firmir.Dbus.Message.Private.Stream.{Stream}
use firmir.Dbus.Connection.{
  State, getting_name, same_state, System, update_state, hello_msg, hello_sent, do_get_name,
  begun_with, finish_auth, keep_char, read_char, do_auth,
}
use firmir.Dbus.Connection.Serials.{Sends, send-Sends}

abbrev pub Returns : {W : Type 0} {A : Type 0} → Io W A → Type 0
Returns (returned a w) = Unit {0}
Returns (halted e) = ⊥

-- The table of replies has room, and the next serial is a `uint32_t`.
pub record HasRoom {W : Type 0} (s : System W) : Type 0 where
  pub outstanding : length s.connection.replies < 2 ^ 32
  pub serial : s.connection.next_serial < 2 ^ 32

module _ {W : Type 0} where
  update_state-HasRoom : (v : State) (s : System W) → HasRoom s → HasRoom (update_state v s)
  unfolding update_state
  update_state-HasRoom v s h = elim (Bool-cases (same_state s.connection.state v)) [
    | inl t ↦ rw t h
    | inr f ↦ rw f (record { outstanding = h.outstanding; serial = h.serial })
  ]

  keep_char-HasRoom :
      (c : ℕ) (s : System W)
      → HasRoom s
      → HasRoom (keep_char c s) × ((keep_char c s).kernel ≡ s.kernel)
  unfolding keep_char
  keep_char-HasRoom c s h = elim (Bool-cases (c == 13)) [
    | inl t ↦ rw t (h, refl)
    | inr f ↦ rw f (record { outstanding = h.outstanding; serial = h.serial }, refl)
  ]

module _ {W : Type 0} (read : W → ℕ → ReadResult × W) (write : W → List ℕ → Option ℕ × W) where
  hello_sent-Returns :
      (s : System W) (x : Io (System W) (Option ℕ × MessagePrivate))
      → Sends read write hello_msg s x
      → Returns (hello_sent read write x)
  hello_sent-Returns s (halted e) h = h
  hello_sent-Returns s (returned (none, m) s') h = tt
  hello_sent-Returns s (returned (some i, m) s') h = tt

  do_get_name-Returns : (s : System W) → HasRoom s → Returns (do_get_name read write s)
  unfolding do_get_name
  do_get_name-Returns s h =
      let room = update_state-HasRoom getting_name s h in
      hello_sent-Returns (update_state getting_name s) _
        (send-Sends read write hello_msg (update_state getting_name s) room.outstanding room.serial)

  finish_auth-Returns : (s : System W) → HasRoom s → Returns (finish_auth read write s)
  unfolding finish_auth
  finish_auth-Returns s h =
      elim (Bool-cases (same_bytes (take 2 s.connection.auth_data) (codes "OK"))) [
        | inl t ↦ rw t (go (write s.kernel (codes "BEGIN" ++ 13 ∷ 10 ∷ [])))
        | inr f ↦ rw f tt
      ]
    where
      go : (o : Option ℕ × W) → Returns (begun_with read write s o)
      go (none, w) = tt
      go (some k, w) =
          do_get_name-Returns _ (record { outstanding = h.outstanding; serial = h.serial })

  -- Over a descriptor that delivers a stream, `doAuth` returns: it calls itself once for each byte that
  -- is there at most, so fuel for one call more is enough. Fewer than 2 ^ 32 replies are outstanding.
  pub do_auth-Returns :
      (stream : Stream read) (fuel : ℕ) (s : System W)
      → length (stream.pending s.kernel) < fuel
      → HasRoom s
      → Returns (do_auth read write fuel s)
  unfolding do_auth
  do_auth-Returns stream zero s l h = absurd (omega arith)
  do_auth-Returns stream (suc fuel) s l h = go (do_auth-Returns stream fuel) (read s.kernel 1) refl
    where
      go :
          ((s' : System W)
            → length (stream.pending s'.kernel) < fuel
            → HasRoom s'
            → Returns (do_auth read write fuel s'))
          → (o : ReadResult × W) → read s.kernel 1 ≡ o
          → Returns (read_char read write (do_auth read write fuel) s o)
      go ih (nothing e, w) q = tt
      go ih (got [], w) q = tt
      go ih (got (c ∷ cs), w) q =
          let room : HasRoom (record s { kernel = w }) = record {
            outstanding = h.outstanding;
            serial = h.serial;
          } in
          let (kept, same) = keep_char-HasRoom c (record s { kernel = w }) room in
          let d = stream.delivers s.kernel 1 (c ∷ cs) w (omega arith) q in
          let fewer : length (stream.pending w) < fuel =
            omega (arith, ap length d.0, length-append cs (stream.pending w)) in
          elim (Bool-cases (c == 10)) [
            | inl t ↦ rw t (finish_auth-Returns _ room)
            | inr f ↦ rw f (ih _ (rw same fewer) kept)
          ]
