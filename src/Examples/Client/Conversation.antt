-- ===== src/Examples/Client/Conversation.antt =====
-- examples/dbus/main.cpp: the whole conversation with a bus that answers.
use firmir.Base.{
  ℕ, ◌+◌, ◌≤◌, ◌<◌, ◌≡◌, ◌≢◌, refl, sym, ◌∙◌, arith, true, inl, Option, none, some, List, [], ◌∷◌,
  ◌++◌, codes, same_bytes, append-nil, length, length-append, All, All-right, ◌==◌,
}
use firmir.Dbus.Wire.{IsByte, little}
use firmir.Dbus.Message.Layout.{up, gap, text}
use firmir.Dbus.Message.Reader.Safety.{IsValid}
use firmir.Dbus.Message.Reader.Replay.{at, at-IsPlaced, read_string-at}
use firmir.Dbus.Message.Header.{method_call, method_return}
use firmir.Dbus.Message.Header.Entries.{encode, encode-le}
use firmir.Dbus.Message.Header.FixedRoundTrip.{fixed_bytes}
use firmir.Examples.Reader.{done, read_string}
use firmir.Examples.Reader.Agreement.{read_string-Agrees}
use firmir.Examples.Message.{Message, serialize}
use firmir.Examples.Message.Replay.{Agrees-done}
use firmir.Examples.Message.Appends.{entries}
use firmir.Examples.Message.RoundTrip.{IsSendable, wire, serialize_lem}
use firmir.Examples.Client.{
  Reading, Run, ran, ◌>>=◌, ◌>>◌, hello, answers, unique_name, body_reader, named, report,
  read_line, wait_reply, sent, sent_one, send_hello, converse, write_nul, write_auth, write_begin,
  authenticate, answered, say_hello, get_name,
}
use firmir.Dbus.Connection.Opening.{auth_cmd, uid_to_hex}
use firmir.Examples.Client.Stream.{Stream, read_line-Takes}
use firmir.Examples.Client.Messages.{
  Packet, bytes_of, message_of, all_bytes, IsPacket, IsPassed, wait_reply-Takes,
}

hello_size : length (encode little 16 (entries hello)) ≤ 162
hello_size = encode-le little 16 (entries hello)

hello-IsSendable : IsSendable hello
hello-IsSendable = record {
  writable = record {
    path = (omega arith, tt);
    interface = (omega arith, tt);
    member = (omega arith, tt);
    error_name = tt;
    destination = (omega arith, tt);
    sender = tt;
    reply_serial = tt;
    unix_fds = tt;
    signature = tt;
  };
  order = inl refl;
  serial = omega arith;
  body = omega arith;
  fields = omega (arith, hello_size);
}

-- The only reply is a return of the method.
answers-method_return : (m : Message) → answers m ≡ true → (m.type == method_return) ≡ true
unfolding answers
answers-method_return m h = ground arith

-- The text in the body of a reply.
body_text :
    (m : Message) (name : List ℕ)
    → IsValid (at [] m.body m.endian)
    → length name < 0xFFFFFFFF
    → m.body ≡ text m.endian name
    → read_string (body_reader m)
      ≡ done name (record { bytes = m.body; pos = length (text m.endian name); endian = m.endian })
unfolding gap up
body_text m name v h e =
    let flat : text m.endian name ++ [] ≡ m.body = append-nil (text m.endian name) ∙ sym e in
    let w : IsValid (at [] (text m.endian name ++ []) m.endian) = rw flat v in
    rw flat at (
      Agrees-done _ _ name _ (read_string-at [] name [] m.endian h w.placed.small)
        (read_string-Agrees (at [] (text m.endian name ++ []) m.endian) w))

reported :
    {W : Type 0} (m : Message) (name : List ℕ) (w : W)
    → answers m ≡ true
    → IsValid (at [] m.body m.endian)
    → length name < 0xFFFFFFFF
    → m.body ≡ text m.endian name
    → report m w ≡ ran (unique_name name) w
unfolding report
reported m name w a v h e = rw (answers-method_return m a, body_text m name v h e, named) refl

-- The body of a valid packet is a buffer of bytes too.
body-IsValid : (p : Packet) → IsPacket p → IsValid (at [] p.body p.head.endian)
body-IsValid p k =
    let front = fixed_bytes p.head ++ encode p.head.endian 16 p.entries in
    let g = gap 8 (length front) in
    record {
      placed = at-IsPlaced [] p.body p.head.endian (
          omega (
            arith,
            k.valid.placed.small,
            length-append front (g ++ p.body),
            length-append g p.body,
          ));
      octets = All-right IsByte g p.body (All-right IsByte front (g ++ p.body) k.valid.octets);
    }

-- What the code relies on of `write`: all bytes are taken, and the stream that is read stays.
pub record Accepts {W : Type 0} (write : W → List ℕ → Option ℕ × W) (pending : W → List ℕ)
    : Type 0 where
  pub accepts :
      (w : W) (bs : List ℕ)
      → (w' : W) × ((write w bs ≡ (some (length bs), w')) × (pending w' ≡ pending w))

-- The line `AUTH EXTERNAL` with the number of the user, and the line that begins the messages.
abbrev pub auth_line : ℕ → List ℕ
auth_line uid = codes "AUTH EXTERNAL " ++ (uid_to_hex uid ++ 13 ∷ 10 ∷ [])

abbrev pub begin_line : List ℕ
begin_line = codes "BEGIN" ++ 13 ∷ 10 ∷ []

-- The call of the member `Hello` of the bus, under the serial 1.
abbrev pub hello_call : Message
hello_call = record {
  endian = little;
  type = method_call;
  flags = 0;
  serial = 1;
  path = some (codes "/org/freedesktop/DBus");
  interface = some (codes "org.freedesktop.DBus");
  member = some (codes "Hello");
  error_name = none;
  reply_serial = none;
  destination = some (codes "org.freedesktop.DBus");
  sender = none;
  signature = none;
  unix_fds = none;
  body = [];
}

-- The line that accepts the client.
ok_line :
    (cs : List ℕ)
    → All (λ c. (c ≢ 10) × (c ≢ 13)) cs
    → All (λ c. (c ≢ 10) × (c ≢ 13)) (codes "OK" ++ cs)
ok_line cs k = ((omega arith, omega arith), ((omega arith, omega arith), k))

module _ {W : Type 0} (read : W → ℕ → Reading × W) (write : W → List ℕ → Option ℕ × W)
    (stream : Stream read) (writes : Accepts write stream.pending) where
  -- The whole conversation, call by call: the zero byte, the line `AUTH EXTERNAL`, the line of the bus,
  -- the line `BEGIN`, the call `Hello`, and the messages up to the reply; and its result, with the
  -- stream behind the reply. The two that read are given no way to write.
  pub record Converses (uid lines rounds : ℕ) (line : List ℕ) (reply : Message) (name : List ℕ)
      (rest : List ℕ) (start : W) : Type 0 where
    pub greeted : W
    pub asked : W
    pub accepted : W
    pub begun : W
    pub waits : W
    pub final : W
    pub nul_written : write start (0 ∷ []) ≡ (some 1, greeted)
    pub auth_written : write greeted (auth_line uid) ≡ (some (length (auth_line uid)), asked)
    pub line_read : read_line read lines [] asked ≡ ran line accepted
    pub begin_written : write accepted begin_line ≡ (some (length begin_line), begun)
    pub hello_written : write begun (wire hello_call) ≡ (some (length (wire hello_call)), waits)
    pub reply_read : wait_reply read rounds waits ≡ ran reply final
    pub result : converse read write uid lines rounds start ≡ ran (unique_name name) final
    pub left : stream.pending final ≡ rest

  bind_ran :
      {A B : Type 0} (m : W → Run W A) (f : A → W → Run W B) (a : A) (w w' : W)
      → m w ≡ ran a w'
      → (m >>= f) w ≡ f a w'
  bind_ran m f a w w' e = rw (◌>>=◌, e) refl

  sent_lem :
      (bs : List ℕ) (k : ℕ) (w w' : W)
      → write w bs ≡ (some k, w')
      → sent read write (write w bs) ≡ ran tt w'
  sent_lem bs k w w' e = rw (e, sent) refl

  hello_lem :
      (k : ℕ) (w w' : W)
      → write w (wire hello_call) ≡ (some k, w')
      → send_hello read write (serialize hello) w ≡ ran tt w'
  hello_lem k w w' e =
      rw (serialize_lem hello hello-IsSendable, send_hello) (sent_lem (wire hello) k w w' e)

  -- Where `write` takes all bytes: with a bus that accepts the client by a line that begins with `OK`,
  -- sends any number of messages that are neither an error nor an answer, and then answers the hello
  -- with the text of a name, the client writes the zero byte, the line `AUTH EXTERNAL` with the number
  -- of the user, and, behind the line of the bus, the line `BEGIN` and the bytes of a call of the member
  -- `Hello` of the bus under the serial 1, and nothing else; then it reports that name, with the stream
  -- left behind the answer. The bytes may come in any pieces, as long as each call of `read` gets some.
  -- Fuel for the bytes of the line and for one round to a message is enough.
  pub converse-Converses :
      (uid lines rounds : ℕ) (cs name : List ℕ) (skipped : List Packet) (reply : Packet)
      (rest : List ℕ) (w : W)
      → All (λ c. (c ≢ 10) × (c ≢ 13)) cs
      → length cs + 4 ≤ lines
      → All (λ p. IsPacket p × IsPassed (message_of p)) skipped
      → length skipped < rounds
      → IsPacket reply
      → answers (message_of reply) ≡ true
      → length name < 0xFFFFFFFF
      → reply.body ≡ text reply.head.endian name
      → stream.pending w
        ≡ ((codes "OK" ++ cs) ++ 13 ∷ 10 ∷ []) ++ ((all_bytes skipped ++ bytes_of reply) ++ rest)
      → Converses uid lines rounds (codes "OK" ++ cs) (message_of reply) name rest w
  unfolding converse same_bytes auth_cmd
  converse-Converses uid lines rounds cs name skipped reply rest w k1 l1 k2 l2 k3 a h e p =
      let line = codes "OK" ++ cs in
      let packets = all_bytes skipped ++ bytes_of reply in
      let say = say_hello read write rounds in
      let auth = authenticate read write lines rounds in
      let m = message_of reply in
      let (w1, (e1, q1)) = writes.accepts w (0 ∷ []) in
      let (w2, (e2, q2)) = writes.accepts w1 (auth_line uid) in
      let (w3, (e3, q3)) =
        read_line-Takes read stream lines [] line (packets ++ rest) w2 (ok_line cs k1) (omega arith)
          (q2 ∙ q1 ∙ p) in
      let (w4, (e4, q4)) = writes.accepts w3 begin_line in
      let (w5, (e5, q5)) = writes.accepts w4 (wire hello_call) in
      let (w6, (e6, q6)) =
        wait_reply-Takes read stream rounds skipped reply rest w5 l2 k2 k3 (inl a) (q5 ∙ q4 ∙ q3) in
      let nul : write_nul read write w ≡ ran tt w1 = rw (e1, sent_one) refl in
      record {
        greeted = w1;
        asked = w2;
        accepted = w3;
        begun = w4;
        waits = w5;
        final = w6;
        nul_written = e1;
        auth_written = e2;
        line_read = e3;
        begin_written = e4;
        hello_written = e5;
        reply_read = e6;
        result =
            bind_ran (write_nul read write) (λ _. write_auth read write uid >> auth) tt w w1 nul
            ∙ bind_ran (write_auth read write uid) (λ _. auth) tt w1 w2
                (sent_lem (auth_line uid) (length (auth_line uid)) w1 w2 e2)
            ∙ bind_ran (read_line read lines []) (answered read write rounds) line w2 w3 e3
            ∙ bind_ran (write_begin read write) (λ _. say) tt w3 w4
                (sent_lem begin_line (length begin_line) w3 w4 e4)
            ∙ bind_ran (send_hello read write (serialize hello)) (λ _. get_name read write rounds)
                tt w4 w5 (hello_lem (length (wire hello_call)) w4 w5 e5)
            ∙ bind_ran (wait_reply read rounds) report m w5 w6 e6
            ∙ reported m name w6 a (body-IsValid reply k3) h e;
        left = q6;
      }
