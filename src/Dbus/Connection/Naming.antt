-- ===== src/Dbus/Connection/Naming.antt =====
-- dbus/connection.cpp and dbus/pending-reply.cpp: the answer to `Hello`, with the name of the connection.
use firmir.Base.{
  ℕ, ◌≡◌, refl, ap, ◌∙◌, arith, true, false, Option, none, some, List, [], ◌∷◌, ◌++◌, length, ◌==◌,
  inl, eq→==,
}
use firmir.Dbus.Message.Header
use firmir.Dbus.Message.Header.{method_return}
use firmir.Dbus.Message.Header.{serialize_dynamic}
use firmir.Dbus.Message.Private.{MessagePrivate, returned}
use firmir.Dbus.Message.Api.{extracted, extract}
use firmir.Dbus.Connection.{
  getting_name, connected, same_state, System, erase, update_state, handle_bus_msg, set_message,
  set_message_from, finished, find, reply_for, answer_to, erasing, on_hello, result_of, set_result,
  handle_get_name_response,
}
use firmir.Dbus.Connection.Replies.{
  type_test, find-head, result_of-append, set_result-append, erase-head,
}
use firmir.Dbus.Connection.Handshake.{Waits}

result_of-some :
    (m : MessagePrivate) (rs : List (Option MessagePrivate))
    → result_of (length rs) (rs ++ some m ∷ []) ≡ some m
unfolding result_of
result_of-some m [] = refl
result_of-some m (r ∷ rs) = result_of-some m rs

set_result-some :
    (m m' : MessagePrivate) (rs : List (Option MessagePrivate))
    → set_result (length rs) m' (rs ++ some m ∷ []) ≡ rs ++ some m' ∷ []
unfolding set_result
set_result-some m m' [] = refl
set_result-some m m' (r ∷ rs) = ap (◌∷◌ r) (set_result-some m m' rs)

module _ {W : Type 0} where
  abbrev named_by : System W → List ℕ → List (Option MessagePrivate) → System W
  named_by s name rs = record s {
    connection = record (s.connection) { state = connected; service_name = name };
    results = rs;
    events = connected ∷ s.events;
  }

  on_hello-named_by :
      (h : ℕ) (rs : List (Option MessagePrivate)) (s : System W) (r r' : MessagePrivate)
      (name : List ℕ)
      → same_state s.connection.state getting_name ≡ true
      → same_state s.connection.state connected ≡ false
      → h ≡ length rs
      → s.results ≡ rs ++ some r ∷ []
      → (r.fixed_header.type == Header.error) ≡ false
      → extract s.connection.service_name r ≡ extracted name r'
      → r'.valid ≡ true
      → on_hello h s ≡ returned tt (named_by s name (rs ++ some r' ∷ []))
  unfolding on_hello handle_get_name_response update_state same_state
  on_hello-named_by h rs s r r' name a b l q t e v =
      rw (a, q, l, result_of-some r rs, t, e, set_result-some r r' rs, v, b)

  -- While the connection waits for the answer to `Hello`: a method return with the serial of that call,
  -- from which `>>` takes the name, becomes the result of that reply, brings the connection into the
  -- state Connected with that name, and leaves the other replies outstanding.
  pub handle_bus_msg-Connected :
      (replies : List (ℕ × ℕ)) (results : List (Option MessagePrivate)) (k h : ℕ) (s : System W)
      (r r' : MessagePrivate) (name : List ℕ)
      → Waits replies results k h s
      → r.fixed_header.type ≡ method_return
      → r.dynamic_header.reply_serial ≡ some k
      → extract s.connection.service_name r ≡ extracted name r'
      → r'.valid ≡ true
      → handle_bus_msg r s
        ≡ returned tt (record s {
          connection = record (s.connection) {
            state = connected;
            service_name = name;
            replies = replies;
          };
          results = results ++ some r' ∷ [];
          events = connected ∷ s.events;
        })
  unfolding handle_bus_msg set_message same_state
  handle_bus_msg-Connected replies results k h s r r' name waits t c e v =
      let answered = record s { results = set_result h r s.results } in
      let none_yet : result_of h s.results ≡ none =
        rw (waits.last, waits.results) (result_of-append results) in
      let stored : set_result h r s.results ≡ results ++ some r ∷ [] =
        rw (waits.last, waits.results) (set_result-append r results) in
      let found : find k s.connection.replies ≡ some h = rw waits.replies (find-head k h replies) in
      let others : erase k s.connection.replies ≡ replies =
        rw waits.replies (erase-head k h replies waits.fresh) in
      let by_name =
        on_hello-named_by h results answered r r' name (rw waits.state) (rw waits.state) waits.last
          stored (ground (arith, t)) e v in
      rw (type_test r (inl t)) (
        ap (λ o. reply_for o r s) c
        ∙ (ap (λ o. answer_to k o r s) found
            ∙ (ap (λ o. erasing k (set_message_from o h r s)) none_yet
                ∙ (ap (λ o. erasing k (finished h o answered)) waits.hello
                    ∙ rw (eq→== h h refl, by_name, others)))))
