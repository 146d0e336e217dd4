-- ===== src/Dbus/Connection/Safety.antt =====
-- dbus/connection.cpp: what a connection makes of any bytes.
use firmir.Base.{
  ℕ, zero, suc, ◌≡◌, refl, arith, true, false, Option, none, some, List, [], ◌∷◌, ◌++◌, All, ◌⊎◌,
  inl, inr, ◌==◌, ◌||◌, Bool-cases,
}
use firmir.Dbus.Wire.{IsByte}
use firmir.Dbus.Message.Header
use firmir.Dbus.Message.Header.{method_return}
use firmir.Dbus.Message.Reader.Overrun.{Wraps, EndsWith, read_string-EndsWith}
use firmir.Dbus.Message.Reader.{
  Outcome, done, stopped, out_of_bounds, bad_optional_access, out_of_fuel, read_string,
}
use firmir.Dbus.Message.Reader.Safety.{IsValid}
use firmir.Dbus.Message.Private.{
  MessagePrivate, ReadResult, Io, returned, halted, ReadFdRes, success, failure, would_block_res,
}
use firmir.Dbus.Message.Private.Stream.{Stream}
use firmir.Dbus.Message.Private.Safety.{Receiving, waiting, Comes, read_fd-Comes}
use firmir.Dbus.Message.Api.{Extracted, extracted, broken_off, take_item, extract}
use firmir.Dbus.Connection.States.{update_state_lem}
use firmir.Dbus.Connection.{
  State, auth, getting_name, error_state, same_state, is_ready, System, result_of, set_result,
  named, handle_get_name_response, on_hello, finished, set_message, set_message_from, erasing,
  answer_to, reply_for, handle_bus_msg, fresh_msg, with_msg, received, read_data,
}

-- The only fault is a read outside a buffer.
abbrev Overruns : {W : Type 0} {A : Type 0} → Io W A → Type 0
Overruns (returned a w) = Unit {0}
Overruns (halted e) = e ≡ out_of_bounds

abbrev Taken : Extracted → Type 0
Taken (extracted s m) = Unit {0}
Taken (broken_off e) = e ≡ out_of_bounds

extract-Taken : (item : List ℕ) (m : MessagePrivate) → IsValid m.reader → Taken (extract item m)
unfolding extract
extract-Taken item m v = go (read_string m.reader) (read_string-EndsWith m.reader v)
  where
    go :
        (o : Outcome (Option (List ℕ)))
        → EndsWith (Wraps m.reader) m.reader o
        → Taken (take_item item m o)
    go (done none r) e = tt
    go (done (some s) r) e = tt
    go (stopped out_of_bounds) e = refl
    go (stopped bad_optional_access) e = absurd e
    go (stopped out_of_fuel) e = absurd e

-- What is stored is what is found.
result_of-set_result :
    (h : ℕ) (m : MessagePrivate) (rs : List (Option MessagePrivate))
    → (result_of h (set_result h m rs) ≡ none) ⊎ (result_of h (set_result h m rs) ≡ some m)
unfolding result_of set_result
result_of-set_result h m [] = inl refl
result_of-set_result zero m (r ∷ rs) = inr refl
result_of-set_result (suc h) m (r ∷ rs) = result_of-set_result h m rs

module _ {W : Type 0} where
  named-Overruns : (h : ℕ) (s : System W) (x : Extracted) → Taken x → Overruns (named h s x)
  named-Overruns h s (extracted name m) t = tt
  named-Overruns h s (broken_off e) t = t

  handle_get_name_response-Overruns :
      (h : ℕ) (m : MessagePrivate) (s : System W)
      → IsValid m.reader
      → Overruns (handle_get_name_response h m s)
  unfolding handle_get_name_response
  handle_get_name_response-Overruns h m s v =
      elim (Bool-cases (m.fixed_header.type == Header.error)) [
        | inl t ↦ rw t tt
        | inr f ↦ rw f (named-Overruns h s _ (extract-Taken s.connection.service_name m v))
      ]

  on_hello-Overruns :
      (h : ℕ) (m : MessagePrivate) (s : System W)
      → IsValid m.reader
      → (result_of h s.results ≡ none) ⊎ (result_of h s.results ≡ some m)
      → Overruns (on_hello h s)
  unfolding on_hello
  on_hello-Overruns h m s v r = elim (Bool-cases (same_state s.connection.state getting_name)) [
    | inr f ↦ rw f tt
    | inl t ↦ elim r [
      | inl n ↦ rw (t, n) tt
      | inr q ↦ rw (t, q) (handle_get_name_response-Overruns h m s v)
    ]
  ]

  finished-Overruns :
      (h : ℕ) (o : Option ℕ) (m : MessagePrivate) (s : System W)
      → IsValid m.reader
      → (result_of h s.results ≡ none) ⊎ (result_of h s.results ≡ some m)
      → Overruns (finished h o s)
  finished-Overruns h none m s v r = tt
  finished-Overruns h (some i) m s v r = elim (Bool-cases (h == i)) [
    | inl t ↦ rw t (on_hello-Overruns h m s v r)
    | inr f ↦ rw f tt
  ]

  set_message-Overruns :
      (h : ℕ) (o : Option MessagePrivate) (m : MessagePrivate) (s : System W)
      → IsValid m.reader
      → Overruns (set_message_from o h m s)
  set_message-Overruns h (some old) m s v = tt
  set_message-Overruns h none m s v =
      finished-Overruns h s.hello m (record s { results = set_result h m s.results }) v
        (result_of-set_result h m s.results)

  erasing-Overruns : (n : ℕ) (x : Io (System W) (Unit {0})) → Overruns x → Overruns (erasing n x)
  erasing-Overruns n (returned u s) h = tt
  erasing-Overruns n (halted e) h = h

  answer_to-Overruns :
      (n : ℕ) (o : Option ℕ) (m : MessagePrivate) (s : System W)
      → IsValid m.reader
      → Overruns (answer_to n o m s)
  unfolding set_message
  answer_to-Overruns n none m s v = tt
  answer_to-Overruns n (some h) m s v = erasing-Overruns n _ (set_message-Overruns h _ m s v)

  reply_for-Overruns :
      (o : Option ℕ) (m : MessagePrivate) (s : System W)
      → IsValid m.reader
      → Overruns (reply_for o m s)
  reply_for-Overruns none m s v = tt
  reply_for-Overruns (some n) m s v = answer_to-Overruns n _ m s v

  handle_bus_msg-Overruns :
      (m : MessagePrivate) (s : System W) → IsValid m.reader → Overruns (handle_bus_msg m s)
  unfolding handle_bus_msg
  handle_bus_msg-Overruns m s v =
      elim (Bool-cases
        ((m.fixed_header.type == method_return) || (m.fixed_header.type == Header.error))) [
          | inl t ↦ rw t (reply_for-Overruns _ m s v)
          | inr f ↦ rw f tt
        ]

  -- Ready for the next bytes, or given up.
  abbrev pub GoesOn : Io (System W) (Unit {0}) → Type 0
  GoesOn (returned u s) = Receiving s.connection.read_msg ⊎ (s.connection.state ≡ error_state)
  GoesOn (halted e) = e ≡ out_of_bounds

  fresh_msg-GoesOn : (x : Io (System W) (Unit {0})) → Overruns x → GoesOn (fresh_msg x)
  fresh_msg-GoesOn (returned u s) h = inl (waiting refl refl refl (omega arith))
  fresh_msg-GoesOn (halted e) h = h

not_auth : (v : State) → is_ready v ≡ true → same_state v auth ≡ false
unfolding is_ready same_state
not_auth v h = ground arith

module _ {W : Type 0} (read : W → ℕ → ReadResult × W) (write : W → List ℕ → Option ℕ × W)
    (stream : Stream read) where
  received-GoesOn :
      (s : System W) (bs : List ℕ) (x : Io W (ReadFdRes × MessagePrivate))
      → Comes read stream bs x
      → GoesOn (received read write s x)
  received-GoesOn s bs (returned (success, m) w) c =
      fresh_msg-GoesOn _ (handle_bus_msg-Overruns m _ c.0)
  received-GoesOn s bs (returned (failure, m) w) c =
      inr (update_state_lem error_state (with_msg s m w))
  received-GoesOn s bs (returned (would_block_res, m) w) c = inl c.0
  received-GoesOn s bs (halted out_of_bounds) c = refl
  received-GoesOn s bs (halted bad_optional_access) c = absurd c
  received-GoesOn s bs (halted out_of_fuel) c = absurd c

  -- On a connection in GettingName or Connected whose next message is being received, `readData` takes
  -- any bytes, in any pieces, without an exception or an endless loop: it leaves the connection
  -- receiving again, or in the state Error. Its only fault is a read outside the buffer.
  pub read_data-GoesOn :
      (fuel : ℕ) (s : System W)
      → is_ready s.connection.state ≡ true
      → Receiving s.connection.read_msg
      → All IsByte (s.connection.read_msg.reader.bytes ++ stream.pending s.kernel)
      → GoesOn (read_data read write fuel s)
  unfolding read_data
  read_data-GoesOn fuel s h r a =
      rw (not_auth s.connection.state h, h)
        (received-GoesOn s _ _ (read_fd-Comes read stream s.connection.read_msg s.kernel r a))
