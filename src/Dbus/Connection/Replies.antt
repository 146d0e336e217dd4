-- ===== src/Dbus/Connection/Replies.antt =====
-- dbus/connection.cpp and dbus/pending-reply.cpp: what becomes of an answer to a call.
use firmir.Base.{
  ℕ, ◌^◌, ◌<◌, ◌≡◌, ◌≢◌, refl, sym, ap, ◌∙◌, arith, true, false, Option, none, some, List, [], ◌∷◌,
  ◌++◌, length, ◌==◌, ◌||◌, ◌⊎◌, eq→==, ne→==_false,
}
use firmir.Dbus.Message.Header
use firmir.Dbus.Message.Header.{method_return}
use firmir.Dbus.Message.Private.{MessagePrivate, ReadResult, returned}
use firmir.Dbus.Connection.{
  System, contains, find, erase, set_result, result_of, finished, set_message, handle_bus_msg, send,
}
use firmir.Dbus.Connection.Serials.{Sends, send-Sends, erase-none}

pub result_of-append :
    (rs : List (Option MessagePrivate)) → result_of (length rs) (rs ++ none ∷ []) ≡ none
unfolding result_of
result_of-append [] = refl
result_of-append (r ∷ rs) = result_of-append rs

pub set_result-append :
    (m : MessagePrivate) (rs : List (Option MessagePrivate))
    → set_result (length rs) m (rs ++ none ∷ []) ≡ rs ++ some m ∷ []
unfolding set_result
set_result-append m [] = refl
set_result-append m (r ∷ rs) = ap (◌∷◌ r) (set_result-append m rs)

pub find-head : (k h : ℕ) (rs : List (ℕ × ℕ)) → find k ((k, h) ∷ rs) ≡ some h
unfolding find
find-head k h rs = rw (eq→== k k refl)

pub erase-head : (k h : ℕ) (rs : List (ℕ × ℕ)) → contains k rs ≡ false → erase k ((k, h) ∷ rs) ≡ rs
unfolding erase
erase-head k h rs f = rw (eq→== k k refl) (erase-none k rs f)

abbrev pub IsReply : MessagePrivate → Type 0
IsReply m = (m.fixed_header.type ≡ method_return) ⊎ (m.fixed_header.type ≡ Header.error)

pub type_test :
    (m : MessagePrivate)
    → IsReply m
    → ((m.fixed_header.type == method_return) || (m.fixed_header.type == Header.error)) ≡ true
type_test m h = ground arith

module _ {W : Type 0} where
  other_finished :
      (h : ℕ) (o : Option ℕ) (s : System W) → o ≢ some h → finished h o s ≡ returned tt s
  other_finished h none s n = refl
  other_finished h (some i) s n = rw (ne→==_false h i (λ p. n (ap some (sym p))))

  -- The answer to the call that was sent last.
  answered :
      (r : MessagePrivate) (s : System W) (k h : ℕ) (old : List (ℕ × ℕ))
      (rs : List (Option MessagePrivate))
      → s.connection.replies ≡ (k, h) ∷ old
      → contains k old ≡ false
      → h ≡ length rs
      → s.results ≡ rs ++ none ∷ []
      → s.hello ≢ some h
      → IsReply r
      → r.dynamic_header.reply_serial ≡ some k
      → handle_bus_msg r s
        ≡ returned tt (record s {
          results = rs ++ some r ∷ [];
          connection = record (s.connection) { replies = old };
        })
  unfolding handle_bus_msg set_message
  answered r s k h old rs e f q g n t c =
      let other : s.hello ≢ some (length rs) = λ p. n (p ∙ ap some (sym q)) in
      rw (type_test r t, c, e, find-head k h old, g, q, result_of-append rs)
        (rw (
          set_result-append _ rs,
          other_finished (length rs) s.hello _ other,
          erase-head k (length rs) old f,
        ))

module _ {W : Type 0} (read : W → ℕ → ReadResult × W) (write : W → List ℕ → Option ℕ × W) where
  -- With fewer than 2 ^ 32 replies outstanding: once `send` has returned a reply, an answer (a method
  -- return or an error) with the serial of the message that was sent becomes the result of that reply
  -- and of no other, and the table of replies is again what it was before the call; unless the reply is
  -- the one that the connection waits for itself.
  pub send-handle_bus_msg :
      (m r : MessagePrivate) (s : System W)
      → length s.connection.replies < 2 ^ 32
      → s.connection.next_serial < 2 ^ 32
      → (h : ℕ) (m' : MessagePrivate) (s' : System W)
      → send read write m s ≡ returned (some h, m') s'
      → s'.hello ≢ some h
      → IsReply r
      → r.dynamic_header.reply_serial ≡ some m'.fixed_header.serial
      → handle_bus_msg r s'
        ≡ returned tt (record s' {
          results = s.results ++ some r ∷ [];
          connection = record (s'.connection) { replies = s.connection.replies };
        })
  send-handle_bus_msg m r s l k h m' s' e n t c =
      let sent : Sends read write m s (returned (some h, m') s') =
        rw e at (send-Sends read write m s l k) in
      answered r s' m'.fixed_header.serial h s.connection.replies s.results (sent.0) (sent.1)
        (sent.2) (sent.3) n t c
