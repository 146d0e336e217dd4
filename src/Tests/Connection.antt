-- ===== src/Tests/Connection.antt =====
-- A call sent and answered, and a step of authentication.
use firmir.Base.{
  ℕ, ◌≡◌, ◌≢◌, ◌≤◌, ◌<◌, refl, sym, ap, arith, Option, none, some, List, [], ◌∷◌, ◌++◌, codes,
  length, inl,
}
use firmir.Dbus.Wire.{store, in_order}
use firmir.Dbus.Message.Writer
use firmir.Dbus.Message.Header.{
  default_fixed, default_dynamic, method_return, serialize_dynamic, serialize_fixed,
  write_string_field, write_uint32_field, write_signature_field,
}
use firmir.Dbus.Message.Private.{
  MessagePrivate, default_message, serialize, Errno, ReadResult, got, nothing, eagain, returned,
}
use firmir.Dbus.Connection.{
  System, auth, connected, same_state, is_ready, contains, erase, assign, free_serial, send,
  handle_bus_msg, read_data, do_auth,
}
use firmir.Dbus.Connection.Serials.{Sends, send-Sends}
use firmir.Dbus.Message.Private.Stream.{Stream}
use firmir.Dbus.Connection.Authentication.{Returns, do_auth-Returns}
use firmir.Dbus.Connection.Forward.{rank, Reaches, read_data-Reaches}
use firmir.Dbus.Connection.Replies.{IsReply, send-handle_bus_msg}

-- A kernel that takes every byte, and has a line of authentication to give.
abbrev pub Kernel : Type 0
Kernel = List ℕ × List ℕ

abbrev pub give : Kernel → ℕ → ReadResult × Kernel
give ([], out) n = (nothing eagain, ([], out))
give (b ∷ bs, out) n = (got (b ∷ []), (bs, out))

abbrev pub accept : Kernel → List ℕ → Option ℕ × Kernel
accept (bs, out) more = (some (length more), (bs, out ++ more))

-- A connected system in which serial 1 is in use.
abbrev pub before : System Kernel
before = record {
  connection = record {
    state = connected;
    auth_data = codes "OK";
    service_name = codes ":1.7";
    next_serial = 1;
    replies = (1, 0) ∷ [];
    read_msg = default_message;
  };
  results = none ∷ [];
  hello = none;
  events = [];
  kernel = ([], []);
}

abbrev numbered : MessagePrivate
numbered = record default_message { fixed_header = record default_fixed { serial = 2 } }

abbrev after : System Kernel
after = record before {
  connection = record (before.connection) { next_serial = 3; replies = (2, 1) ∷ (1, 0) ∷ [] };
  results = none ∷ none ∷ [];
  kernel = ([], (serialize numbered).0);
}

abbrev answer : MessagePrivate
answer = record default_message {
  fixed_header = record default_fixed { type = method_return };
  dynamic_header = record default_dynamic { reply_serial = some 2 };
}

sent_run : send give accept default_message before ≡ returned (some 1, (serialize numbered).1) after
unfolding send is_ready same_state free_serial contains assign erase serialize serialize_dynamic
    write_string_field write_uint32_field write_signature_field serialize_fixed Writer.write_uint8
    Writer.write_uint32 Writer.write_uint Writer.align store in_order
sent_run = refl

answer-IsReply : IsReply answer
answer-IsReply = inl refl

serial_sent : answer.dynamic_header.reply_serial ≡ some (serialize numbered).1.fixed_header.serial
unfolding serialize
serial_sent = refl

no_hello : after.hello ≢ some 1
no_hello p = absurd (cc p)

send-handle_bus_msg_example :
    handle_bus_msg answer after
    ≡ returned tt (record after {
      results = before.results ++ some answer ∷ [];
      connection = record (after.connection) { replies = before.connection.replies };
    })
send-handle_bus_msg_example =
    send-handle_bus_msg give accept default_message answer before (omega arith) (omega arith) 1
      (serialize numbered).1 after sent_run no_hello answer-IsReply serial_sent

send-Sends_example :
    Sends give accept default_message before (send give accept default_message before)
send-Sends_example = send-Sends give accept default_message before (omega arith) (omega arith)

abbrev pub asking : System Kernel
asking = record before {
  connection = record (before.connection) { state = auth; auth_data = [] };
  kernel = (codes "OK 12" ++ 13 ∷ 10 ∷ [], []);
}

read_data-Reaches_example : Reaches (rank auth) (read_data give accept 20 asking)
read_data-Reaches_example = read_data-Reaches give accept 20 asking

abbrev bytes_of : ReadResult → List ℕ
bytes_of (got bs) = bs
bytes_of (nothing e) = []

pub give_delivers :
    (w : Kernel) (n : ℕ) (bs : List ℕ) (w' : Kernel)
    → 0 < n
    → give w n ≡ (got bs, w')
    → (w.0 ≡ bs ++ w'.0) × (0 < length bs) × (length bs ≤ n)
give_delivers ([], out) n bs w' h e = absurd (cc e)
give_delivers (b ∷ xs, out) n bs w' h e =
    let taken : (b ∷ []) ≡ bs = ap (λ (x : ReadResult × Kernel). bytes_of x.0) e in
    let left : ◌≡◌ {A = Kernel} (xs, out) w' = ap (λ (x : ReadResult × Kernel). x.1) e in
    rw (← taken, ← left) (refl, omega arith, omega arith)

pub give_keeps :
    (w : Kernel) (n : ℕ) (e : Errno) (w' : Kernel) → give w n ≡ (nothing e, w') → w'.0 ≡ w.0
give_keeps ([], out) n e w' q = ap (λ (x : ReadResult × Kernel). x.1.0) (sym q)
give_keeps (b ∷ xs, out) n e w' q = absurd (cc q)

abbrev pub give-Stream : Stream give
give-Stream = record { pending = λ w. w.0; delivers = give_delivers; keeps = give_keeps }

do_auth-Returns_example : Returns (do_auth give accept 20 asking)
do_auth-Returns_example =
    do_auth-Returns give accept give-Stream 20 asking (omega arith)
      (record { outstanding = omega arith; serial = omega arith })
