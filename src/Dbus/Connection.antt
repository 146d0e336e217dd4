-- ===== src/Dbus/Connection.antt =====
-- dbus/connection.cpp and dbus/pending-reply.cpp: a connection to the bus and the replies that it
-- waits for.
pub mod Serials
pub mod Forward
pub mod Replies
pub mod Authentication
pub mod States
pub mod Handshake
pub mod Naming
pub mod Safety
pub mod Opening
use firmir.Base.{
  ℕ, zero, suc, ◌+◌, ◌%◌, ◌^◌, Bool, true, false, ◌||◌, not, Option, none, some, List, [], ◌∷◌,
  ◌++◌, codes, length, get_elem?, take, same_bytes, ◌==◌, if◌then◌else◌,
}
use firmir.Dbus.Message.Header
use firmir.Dbus.Message.Header.{method_return}
use firmir.Dbus.Message.Reader.{Stop, out_of_fuel}
use firmir.Dbus.Message.Private.{
  MessagePrivate, default_message, serialize, Errno, ReadResult, got, nothing, would_block,
  ReadFdRes, success, failure, would_block_res, Io, returned, halted, read_fd,
}
use firmir.Dbus.Message.Api.{
  set_destination, set_path, set_interface, set_member, Extracted, extracted, broken_off, extract,
}

pub data State : Type 0 where
  connecting auth getting_name connected error_state : State

unfoldable pub same_state : State → State → Bool
same_state connecting connecting = true
same_state auth auth = true
same_state getting_name getting_name = true
same_state connected connected = true
same_state error_state error_state = true
same_state _ _ = false

-- The fields of `ConnectionPrivate` but for the descriptor and the parent. A reply is named by its
-- place among all replies that were made, in place of the shared pointer.
pub record ConnectionPrivate : Type 0 where
  pub state : State
  pub auth_data : List ℕ
  pub service_name : List ℕ
  pub next_serial : ℕ
  pub replies : List (ℕ × ℕ)
  pub read_msg : MessagePrivate

-- A connection; the result of each reply; the reply that `doGetName` has connected its callback to;
-- the states at which `StateChanged` was emitted, the latest first; and the kernel.
pub record System (W : Type 0) : Type 0 where
  pub connection : ConnectionPrivate
  pub results : List (Option MessagePrivate)
  pub hello : Option ℕ
  pub events : List State
  pub kernel : W

unfoldable pub contains : ℕ → List (ℕ × ℕ) → Bool
contains k [] = false
contains k ((j, h) ∷ rs) = (k == j) || contains k rs

unfoldable pub find : ℕ → List (ℕ × ℕ) → Option ℕ
find k [] = none
find k ((j, h) ∷ rs) = if k == j then some h else find k rs

unfoldable pub erase : ℕ → List (ℕ × ℕ) → List (ℕ × ℕ)
erase k [] = []
erase k ((j, h) ∷ rs) = let rest = erase k rs in if k == j then rest else (j, h) ∷ rest

-- `replies[k] = h`
unfoldable pub assign : ℕ → ℕ → List (ℕ × ℕ) → List (ℕ × ℕ)
unfolding erase
assign k h rs = (k, h) ∷ erase k rs

-- The loop over the serials, on fuel. A serial is a `uint32_t`.
unfoldable pub free_serial : ℕ → List (ℕ × ℕ) → ℕ → Option ℕ
free_serial zero rs n = none
free_serial (suc fuel) rs n =
    let next = free_serial fuel rs ((n + 1) % 2 ^ 32) in if contains n rs then next else some n

unfoldable pub set_result :
    ℕ → MessagePrivate → List (Option MessagePrivate) → List (Option MessagePrivate)
set_result i m [] = []
set_result zero m (r ∷ rs) = some m ∷ rs
set_result (suc i) m (r ∷ rs) = r ∷ set_result i m rs

-- `getMessage`: what a reply has.
unfoldable pub result_of : ℕ → List (Option MessagePrivate) → Option MessagePrivate
result_of i [] = none
result_of zero (r ∷ rs) = r
result_of (suc i) (r ∷ rs) = result_of i rs

module _ {W : Type 0} where
  unfoldable pub update_state : State → System W → System W
  update_state value s = if same_state s.connection.state value then s else record s {
    connection = record (s.connection) { state = value };
    events = value ∷ s.events;
  }

  -- `msg >> serviceName`, and what follows; the message is that of the reply `h`.
  abbrev pub named : ℕ → System W → Extracted → Io (System W) (Unit {0})
  named h s (broken_off e) = halted e
  named h s (extracted name m) =
      let s' = record s {
        connection = record (s.connection) { service_name = name };
        results = set_result h m s.results;
      } in
      returned tt (update_state (if m.valid then connected else error_state) s')

  unfoldable pub handle_get_name_response : ℕ → MessagePrivate → System W → Io (System W) (Unit {0})
  handle_get_name_response h m s =
      let answer = named h s (extract s.connection.service_name m) in
      if m.fixed_header.type == Header.error
      then returned tt (update_state error_state s)
      else answer

  abbrev pub with_result : ℕ → Option MessagePrivate → System W → Io (System W) (Unit {0})
  with_result h none s = returned tt (update_state error_state s)
  with_result h (some m) s = handle_get_name_response h m s

  -- The callback of `doGetName`.
  unfoldable pub on_hello : ℕ → System W → Io (System W) (Unit {0})
  on_hello h s =
      let answer = with_result h (result_of h s.results) s in
      if same_state s.connection.state getting_name then answer else returned tt s

  -- `emitEvent(Finished)` of the reply `h`.
  abbrev pub finished : ℕ → Option ℕ → System W → Io (System W) (Unit {0})
  finished h none s = returned tt s
  finished h (some i) s = if h == i then on_hello h s else returned tt s

  -- `PendingReplyPrivate::setMessage`, with the result that the reply has already.
  abbrev pub set_message_from :
      Option MessagePrivate → ℕ → MessagePrivate → System W → Io (System W) (Unit {0})
  set_message_from (some old) h m s = returned tt s
  set_message_from none h m s = finished h s.hello (record s { results = set_result h m s.results })

  unfoldable pub set_message : ℕ → MessagePrivate → System W → Io (System W) (Unit {0})
  set_message h m s = set_message_from (result_of h s.results) h m s

  abbrev pub erasing : ℕ → Io (System W) (Unit {0}) → Io (System W) (Unit {0})
  erasing n (halted e) = halted e
  erasing n (returned u s) =
      returned tt
        (record s { connection = record (s.connection) { replies = erase n s.connection.replies } })

  abbrev pub answer_to : ℕ → Option ℕ → MessagePrivate → System W → Io (System W) (Unit {0})
  answer_to n none m s = returned tt s
  answer_to n (some h) m s = erasing n (set_message h m s)

  abbrev pub reply_for : Option ℕ → MessagePrivate → System W → Io (System W) (Unit {0})
  reply_for none m s = returned tt s
  reply_for (some n) m s = answer_to n (find n s.connection.replies) m s

  unfoldable pub handle_bus_msg : MessagePrivate → System W → Io (System W) (Unit {0})
  handle_bus_msg m s =
      let answer = reply_for m.dynamic_header.reply_serial m s in
      if (m.fixed_header.type == method_return) || (m.fixed_header.type == Header.error)
      then answer
      else returned tt s

  -- The character is kept but for `\r`.
  unfoldable pub keep_char : ℕ → System W → System W
  keep_char c s = if c == 13 then s else record s {
    connection = record (s.connection) { auth_data = s.connection.auth_data ++ c ∷ [] };
  }

  -- `readMsg = Message()`
  abbrev pub fresh_msg : Io (System W) (Unit {0}) → Io (System W) (Unit {0})
  fresh_msg (halted e) = halted e
  fresh_msg (returned u s) =
      returned tt (record s { connection = record (s.connection) { read_msg = default_message } })

  abbrev pub with_msg : System W → MessagePrivate → W → System W
  with_msg s m w = record s { connection = record (s.connection) { read_msg = m }; kernel = w }

abbrev pub hello_msg : MessagePrivate
hello_msg = set_member (codes "Hello") (
    set_interface (codes "org.freedesktop.DBus") (
      set_path (codes "/org/freedesktop/DBus")
        (set_destination (codes "org.freedesktop.DBus") default_message)))

unfoldable pub is_ready : State → Bool
is_ready st = same_state st getting_name || same_state st connected

-- The calls `read` and `write` of the kernel; `write` returns how many bytes it took, or -1.
module _ {W : Type 0} (read : W → ℕ → ReadResult × W) (write : W → List ℕ → Option ℕ × W) where
  -- What `send` returns, with the message, whose header it has changed.
  abbrev pub Answer : Type 0
  Answer = Io (System W) (Option ℕ × MessagePrivate)

  abbrev pub written : MessagePrivate → System W → Option ℕ × W → Answer
  written m s (none, w) = returned (none, m) (record s { kernel = w })
  written m s (some k, w) =
      let h = length s.results in
      returned (some h, m)
        (record s {
          kernel = w;
          results = s.results ++ none ∷ [];
          connection = record (s.connection) {
            replies = assign m.fixed_header.serial h s.connection.replies;
          };
        })

  abbrev pub send_bytes : List ℕ × MessagePrivate → System W → Answer
  send_bytes ([], m) s = returned (none, m) s
  send_bytes (b ∷ bs, m) s = written m s (write s.kernel (b ∷ bs))

  abbrev pub send_as : Option ℕ → MessagePrivate → System W → Answer
  send_as none m s = halted out_of_fuel
  send_as (some n) m s =
      send_bytes (serialize (record m { fixed_header = record (m.fixed_header) { serial = n } }))
        (record s { connection = record (s.connection) { next_serial = (n + 1) % 2 ^ 32 } })

  unfoldable pub send : MessagePrivate → System W → Answer
  send m s =
      let c = s.connection in
      if is_ready c.state
      then send_as (free_serial (length c.replies + 1) c.replies c.next_serial) m s
      else returned (none, m) s

  abbrev pub hello_sent : Answer → Io (System W) (Unit {0})
  hello_sent (halted e) = halted e
  hello_sent (returned (none, m) s) = returned tt (update_state error_state s)
  hello_sent (returned (some h, m) s) = returned tt (record s { hello = some h })

  unfoldable pub do_get_name : System W → Io (System W) (Unit {0})
  do_get_name s = hello_sent (send hello_msg (update_state getting_name s))

  abbrev pub begun_with : System W → Option ℕ × W → Io (System W) (Unit {0})
  begun_with s (none, w) = returned tt (update_state error_state (record s { kernel = w }))
  begun_with s (some k, w) = do_get_name (record s { kernel = w })

  -- Behind the end of a line.
  unfoldable pub finish_auth : System W → Io (System W) (Unit {0})
  finish_auth s =
      let go = begun_with s (write s.kernel (codes "BEGIN" ++ 13 ∷ 10 ∷ [])) in
      if same_bytes (take 2 s.connection.auth_data) (codes "OK")
      then go
      else returned tt (update_state error_state s)

  -- A call that returns no byte: at the end of the stream `errno` is as it was.
  abbrev pub read_char :
      (System W → Io (System W) (Unit {0})) → System W → ReadResult × W → Io (System W) (Unit {0})
  read_char again s (nothing e, w) = returned tt (
      if would_block e
      then record s { kernel = w }
      else update_state error_state (record s { kernel = w }))
  read_char again s (got [], w) = returned tt (update_state error_state (record s { kernel = w }))
  read_char again s (got (c ∷ cs), w) =
      if c == 10
      then finish_auth (record s { kernel = w })
      else again (keep_char c (record s { kernel = w }))

  -- The recursion, on fuel.
  unfoldable pub do_auth : ℕ → System W → Io (System W) (Unit {0})
  do_auth zero s = halted out_of_fuel
  do_auth (suc fuel) s = read_char (do_auth fuel) s (read s.kernel 1)

  abbrev pub received : System W → Io W (ReadFdRes × MessagePrivate) → Io (System W) (Unit {0})
  received s (halted e) = halted e
  received s (returned (success, m) w) = fresh_msg (handle_bus_msg m (with_msg s m w))
  received s (returned (failure, m) w) = returned tt (update_state error_state (with_msg s m w))
  received s (returned (would_block_res, m) w) = returned tt (with_msg s m w)

  unfoldable pub read_data : ℕ → System W → Io (System W) (Unit {0})
  read_data fuel s =
      let message = received s (read_fd read s.connection.read_msg s.kernel) in
      if same_state s.connection.state auth
      then do_auth fuel s
      else if is_ready s.connection.state
      then message
      else returned tt s
