-- ===== src/Tests/Handshake.antt =====
-- A connection is opened, authenticated and named; and any bytes that it gets.
use firmir.Base.{
  ℕ, ◌≡◌, ◌≢◌, refl, sym, ap, arith, Bool, true, false, Option, none, some, List, [], ◌∷◌, ◌++◌,
  codes, All, length, take, same_bytes,
}
use firmir.Base.Decimal.{decimal, digits_value}
use firmir.Dbus.Wire.{load, in_order}
use firmir.Dbus.Message.Reader
use firmir.Dbus.Message.Reader.{Reader, done}
use firmir.Dbus.Message.Header.{default_fixed, default_dynamic, method_return}
use firmir.Dbus.Message.Private.Safety.{Receiving, waiting, Comes, read_fd-Comes}
use firmir.Dbus.Message.Private.{read_fd, MessagePrivate, default_message, returned}
use firmir.Dbus.Message.Api.{extract, extracted}
use firmir.Dbus.Connection.{
  connecting, connected, getting_name, System, contains, is_ready, same_state, read_data,
  handle_bus_msg,
}
use firmir.Dbus.Connection.Handshake.{Prompt, Accepts, kept, Waits, Asks, read_data-Asks}
use firmir.Dbus.Connection.Naming.{handle_bus_msg-Connected}
use firmir.Dbus.Connection.Safety.{GoesOn, read_data-GoesOn}
use firmir.Dbus.Connection.Opening.{session, start_connect, uid_to_hex}
use firmir.Dbus.Connection.Opening.Address.{bytes_of_hex, digits_value-uid_to_hex}
use firmir.Dbus.Connection.Opening.Start.{Recorded, Outcome, start_connect_lem}
use firmir.Tests.Connection.{Kernel, give, accept, give-Stream, asking, before}

give-Prompt : Prompt give give-Stream
give-Prompt ([], out) h = absurd (omega arith)
give-Prompt (b ∷ bs, out) h = (b ∷ [], (bs, out), refl)

accept-Accepts : Accepts accept
accept-Accepts (bs, out) more = (length more, (bs, out ++ more), refl)

starts_ok :
    same_bytes
      (take 2 (asking.connection.auth_data ++ kept (codes "OK 12" ++ 13 ∷ [])))
      (codes "OK")
    ≡ true
unfolding kept same_bytes
starts_ok = refl

no_newline : All (λ c. c ≢ 10) (codes "OK 12" ++ 13 ∷ [])
no_newline = (
  λ p. omega arith,
  (
    λ p. omega arith,
    (λ p. omega arith, (λ p. omega arith, (λ p. omega arith, (λ p. omega arith, tt)))),
  ),
)

read_data-Asks_example : Asks give accept asking (read_data give accept 20 asking)
read_data-Asks_example =
    read_data-Asks give accept give-Stream give-Prompt (codes "OK 12" ++ 13 ∷ []) [] 20 asking
      accept-Accepts (record { outstanding = omega arith; serial = omega arith }) refl no_newline
      refl (omega arith) starts_ok

-- `Hello` is outstanding under serial 2, as reply 1.
abbrev greeting : System Kernel
greeting = record before {
  connection = record (before.connection) { state = getting_name; replies = (2, 1) ∷ (1, 0) ∷ [] };
  results = none ∷ none ∷ [];
  hello = some 1;
}

unused : contains 2 ((1, 0) ∷ []) ≡ false
unfolding contains
unused = refl

greeting-Waits : Waits ((1, 0) ∷ []) (none ∷ []) 2 1 greeting
greeting-Waits = record {
  state = refl;
  hello = refl;
  last = refl;
  results = refl;
  fresh = unused;
  replies = refl;
}

abbrev named_to : ℕ → MessagePrivate
named_to p = record default_message {
  fixed_header = record default_fixed { type = method_return };
  dynamic_header = record default_dynamic { reply_serial = some 2 };
  reader = record (default_message.reader) {
    bytes = 4 ∷ 0 ∷ 0 ∷ 0 ∷ (codes ":1.9" ++ 0 ∷ []);
    pos = p;
  };
}

name_read : extract (codes ":1.7") (named_to 0) ≡ extracted (codes ":1.9") (named_to 9)
unfolding extract Reader.read_string Reader.read_uint32 Reader.read_aligned Reader.align
    Reader.get_uint Reader.window in_order load Reader.read_terminated Reader.current
name_read = refl

handle_bus_msg-Connected_example :
    handle_bus_msg (named_to 0) greeting
    ≡ returned tt (record greeting {
      connection = record (greeting.connection) {
        state = connected;
        service_name = codes ":1.9";
        replies = (1, 0) ∷ [];
      };
      results = none ∷ some (named_to 9) ∷ [];
      events = connected ∷ [];
    })
handle_bus_msg-Connected_example =
    handle_bus_msg-Connected ((1, 0) ∷ []) (none ∷ []) 2 1 greeting (named_to 0) (named_to 9)
      (codes ":1.9") greeting-Waits refl refl name_read refl

digits_value-uid_to_hex_example :
    (bytes_of_hex (uid_to_hex 1000) ≡ decimal 1000)
    × (digits_value 0 (bytes_of_hex (uid_to_hex 1000)) ≡ 1000)
digits_value-uid_to_hex_example = digits_value-uid_to_hex 1000

no_comma : All (λ c. c ≢ 44) (codes "/bus")
no_comma = (λ p. omega arith, (λ p. omega arith, (λ p. omega arith, (λ p. omega arith, tt))))

-- A socket that takes every byte, and is no more than what was sent.
abbrev Sent : Type 0
Sent = List ℕ

abbrev open_socket : Sent → Bool × Sent
open_socket w = (true, w)

abbrev reach : Sent → List ℕ → Bool × Sent
reach w path = (true, w)

abbrev unwatched : Sent → Sent
unwatched w = w

abbrev record_all : Sent → List ℕ → Option ℕ × Sent
record_all w bs = (some (length bs), w ++ bs)

take_all : (bs : List ℕ) → take (length bs) bs ≡ bs
take_all [] = refl
take_all (b ∷ bs) = ap (◌∷◌ b) (take_all bs)

abbrev count : Option ℕ → ℕ
count none = 0
count (some k) = k

adds_all :
    (w bs : List ℕ) (k : ℕ) (w' : List ℕ) → record_all w bs ≡ (some k, w') → w' ≡ w ++ take k bs
adds_all w bs k w' e =
    let taken : length bs ≡ k = ap (λ (x : Option ℕ × Sent). count x.0) e in
    let left : w ++ bs ≡ w' = ap (λ (x : Option ℕ × Sent). x.1) e in
    rw (← taken, take_all) (sym left)

abbrev recorded : Recorded open_socket unwatched reach unwatched record_all
recorded = record {
  sent = λ w. w;
  socket_keeps = λ w. refl;
  nonblock_keeps = λ w. refl;
  connect_keeps = λ w path. refl;
  watch_keeps = λ w. refl;
  adds = adds_all;
}

abbrev closed : System Sent
closed = record {
  connection = record (before.connection) { state = connecting; auth_data = []; service_name = [] };
  results = [];
  hello = none;
  events = [];
  kernel = [];
}

start_connect_lem_example :
    Outcome open_socket unwatched reach unwatched record_all recorded 1000 []
      (start_connect open_socket unwatched reach unwatched record_all session 1000 none closed)
start_connect_lem_example =
    start_connect_lem open_socket unwatched reach unwatched record_all recorded session 1000 none
      closed

-- Three bytes, and no more for now.
abbrev few : Kernel
few = (1 ∷ 1 ∷ 115 ∷ [], [])

default-Receiving : Receiving default_message
default-Receiving = waiting refl refl refl (omega arith)

read_fd-Comes_example : Comes give give-Stream (1 ∷ 1 ∷ 115 ∷ []) (read_fd give default_message few)
read_fd-Comes_example =
    read_fd-Comes give give-Stream default_message few default-Receiving
      (omega arith, (omega arith, (omega arith, tt)))

ready : is_ready before.connection.state ≡ true
unfolding is_ready same_state
ready = refl

abbrev listening : System Kernel
listening = record before { kernel = few }

read_data-GoesOn_example : GoesOn (read_data give accept 20 listening)
read_data-GoesOn_example =
    read_data-GoesOn give accept give-Stream 20 listening ready default-Receiving
      (omega arith, (omega arith, (omega arith, tt)))
