-- ===== src/Examples/Client.antt =====
-- examples/dbus/main.cpp: a client that says hello to the session bus. What it prints is left out but
-- for the answer.
pub mod Stream
pub mod Messages
pub mod Conversation
use firmir.Base.{
  ℕ, zero, suc, ◌+◌, ◌-◌, ◌%◌, ◌^◌, Bool, true, false, ◌&&◌, ◌||◌, not, Option, none, some, List,
  [], ◌∷◌, ◌++◌, codes, length, take, drop, same_bytes, ltb, ◌==◌, if◌then◌else◌,
}
use firmir.Dbus.Wire.{little, big, load, in_order, bswap32}
use firmir.Dbus.Message.Reader.{Reader}
use firmir.Dbus.Message.Header.{method_call, method_return, error, signal}
use firmir.Dbus.Connection.Opening.{session, find_text, up_to, default_path, auth_cmd}
use firmir.Examples.Reader.{Outcome, DbusError, done, threw, overran, out_of_fuel, read_string}
use firmir.Examples.Message.{Message, new_message, parse, serialize}

unfoldable pub msg_type_name : ℕ → List ℕ
msg_type_name t =
    if t == method_call
    then codes "METHOD_CALL"
    else if t == method_return
    then codes "METHOD_RETURN"
    else if t == error
    then codes "ERROR"
    else if t == signal
    then codes "SIGNAL"
    else codes "UNKNOWN"

-- What a call of `read` returns: its bytes, none at the end of the stream; or -1.
pub data Reading : Type 0 where
  got : List ℕ → Reading
  error_reading : Reading

-- Why the run ends: an exception, or `return 1`; a parse that leaves its buffer; and that the model's
-- fuel is used up.
pub data Fault : Type 0 where
  line_closed closed read_error bad_endianness : Fault
  parse_error : DbusError → Fault
  gave_up left_buffer no_fuel : Fault

pub data Run (W : Type 0) (A : Type 0) : Type 0 where
  ran : A → W → Run W A
  ended : Fault → W → Run W A

infixl 5 ◌>>=◌ ◌>>◌
abbrev pub ◌>>=◌ : {W A B : Type 0} → (W → Run W A) → (A → W → Run W B) → W → Run W B
◌>>=◌ m f w = elim (m w) [ ran a w' ↦ f a w' | ended e w' ↦ ended e w' ]

abbrev pub ◌>>◌ : {W B : Type 0} → (W → Run W (Unit {0})) → (W → Run W B) → W → Run W B
m >> k = m >>= λ _. k

abbrev pub of_outcome : {W A : Type 0} → Outcome A → W → Run W A
of_outcome (done a r) w = ran a w
of_outcome (threw e) w = ended (parse_error e) w
of_outcome overran w = ended left_buffer w
of_outcome out_of_fuel w = ended no_fuel w

-- `memcpy(&v, header + at, 4)`, swapped in a big-endian header.
abbrev pub header_word : ℕ → List ℕ → ℕ
header_word n (e ∷ header) = in_order bswap32 e (load (take 4 (drop n (e ∷ header))))
header_word n [] = 0

abbrev pub known_order : List ℕ → Bool
known_order (e ∷ header) = (e == little) || (e == big)
known_order [] = false

-- `16 + fields_len` is a sum of type `uint32_t`.
abbrev pub header_padding : ℕ → ℕ
header_padding fields_len = (8 - (16 + fields_len) % 2 ^ 32 % 8) % 8

-- With what `getenv` gives.
unfoldable pub socket_path : ℕ → Option (List ℕ) → List ℕ
socket_path uid env =
    let at = λ (addr : List ℕ) (pos : Option ℕ). elim pos as (λ _. List ℕ) [
      | none ↦ []
      | some n ↦ let path = drop (n + 5) addr in up_to (find_text (codes ",") path) path
    ] in
    let path = elim env as (λ _. List ℕ) [
      | none ↦ []
      | some addr ↦ at addr (find_text (codes "path=") addr)
    ] in
    if length path == 0 then default_path session uid else path

abbrev pub hello : Message
hello = record new_message {
  endian = little;
  type = method_call;
  serial = 1;
  path = some (codes "/org/freedesktop/DBus");
  interface = some (codes "org.freedesktop.DBus");
  member = some (codes "Hello");
  destination = some (codes "org.freedesktop.DBus");
}

-- The reply to the hello.
unfoldable pub answers : Message → Bool
answers m =
    m.type == method_return && elim m.reply_serial [ none ↦ false | some n ↦ n == hello.serial ]

-- What is printed of the reply.
pub data Report : Type 0 where
  unique_name : List ℕ → Report
  error_reply : Option (List ℕ) → Option (List ℕ) → Report
  no_report : Report

abbrev pub body_reader : Message → Reader
body_reader m = record { bytes = m.body; pos = 0; endian = m.endian }

abbrev pub named : {W : Type 0} → Outcome (List ℕ) → W → Run W Report
named (done s r) w = ran (unique_name s) w
named (threw e) w = ended (parse_error e) w
named overran w = ended left_buffer w
named out_of_fuel w = ended no_fuel w

-- The text of an error is read in a `try` of its own.
abbrev pub error_report : {W : Type 0} → Option (List ℕ) → Outcome (List ℕ) → W → Run W Report
error_report name (done s r) w = ran (error_reply name (some s)) w
error_report name (threw e) w = ran (error_reply name none) w
error_report name overran w = ended left_buffer w
error_report name out_of_fuel w = ended no_fuel w

unfoldable pub report : {W : Type 0} → Message → W → Run W Report
report m w =
    if m.type == method_return
    then named (read_string (body_reader m)) w
    else if m.type == error
    then (if length m.body == 0
        then ran (error_reply m.error_name none) w
        else error_report m.error_name (read_string (body_reader m)) w)
    else ran no_report w

-- The descriptor and the kernel behind it are not part of the source: its calls are parameters.
module _ {W : Type 0} (read : W → ℕ → Reading × W) where
  abbrev pub line_char : (List ℕ → W → Run W (List ℕ)) → List ℕ → Reading × W → Run W (List ℕ)
  line_char again line (got (c ∷ cs), w) =
      let longer = again (if c == 13 then line else line ++ c ∷ []) w in
      if c == 10 then ran line w else longer
  line_char again line (got [], w) = ended line_closed w
  line_char again line (error_reading, w) = ended line_closed w

  -- On fuel: a round for each byte.
  unfoldable pub read_line : ℕ → List ℕ → W → Run W (List ℕ)
  read_line zero line w = ended no_fuel w
  read_line (suc fuel) line w = line_char (read_line fuel) line (read w 1)

  abbrev pub exact_round : (List ℕ → W → Run W (List ℕ)) → List ℕ → Reading × W → Run W (List ℕ)
  exact_round again acc (got [], w) = ended closed w
  exact_round again acc (got (c ∷ cs), w) = again (acc ++ c ∷ cs) w
  exact_round again acc (error_reading, w) = ended read_error w

  -- On fuel: a round gives one byte at least.
  unfoldable pub exact_rest : ℕ → ℕ → List ℕ → W → Run W (List ℕ)
  exact_rest zero n acc w = if ltb (length acc) n then ended no_fuel w else ran acc w
  exact_rest (suc fuel) n acc w =
      let more = exact_round (exact_rest fuel n) acc (read w (n - length acc)) in
      if ltb (length acc) n then more else ran acc w

  unfoldable pub read_exact : ℕ → W → Run W (List ℕ)
  read_exact n w = exact_rest n n [] w

  -- Behind the header. A part of length zero is not read, as `read_exact` reads none.
  unfoldable pub read_parts : List ℕ → W → Run W Message
  read_parts header = do
    let fields_len = header_word 12 header
    fields ← read_exact fields_len
    pad ← read_exact (header_padding fields_len)
    body ← read_exact (header_word 4 header)
    of_outcome (parse (header ++ (fields ++ (pad ++ body))))

  -- Behind the read of the header.
  abbrev pub headed : List ℕ → W → Run W Message
  headed header w = if known_order header then read_parts header w else ended bad_endianness w

  unfoldable pub read_message : W → Run W Message
  read_message = read_exact 16 >>= headed

  -- A round of the loop that waits for the reply, behind its message; `again` is the next round.
  abbrev pub waiting : (W → Run W Message) → Message → W → Run W Message
  waiting again m w =
      let more = again w in
      if answers m
      then ran m w
      else if m.type == signal
      then more
      else if m.type == error
      then ran m w
      else more

  -- The loop, on fuel for its rounds.
  unfoldable pub wait_reply : ℕ → W → Run W Message
  wait_reply zero w = ended no_fuel w
  wait_reply (suc fuel) w = (read_message >>= waiting (wait_reply fuel)) w

  module _ (write : W → List ℕ → Option ℕ × W) where
    abbrev pub sent : Option ℕ × W → Run W (Unit {0})
    sent (none, w) = ended gave_up w
    sent (some k, w) = ran tt w

    abbrev pub sent_one : Option ℕ × W → Run W (Unit {0})
    sent_one (none, w) = ended gave_up w
    sent_one (some k, w) = if k == 1 then ran tt w else ended gave_up w

    abbrev pub send_hello : Option (List ℕ) → W → Run W (Unit {0})
    send_hello none w = ended gave_up w
    send_hello (some bytes) w = sent (write w bytes)

    abbrev pub write_auth : ℕ → W → Run W (Unit {0})
    write_auth uid w = sent (write w (auth_cmd uid))

    abbrev pub write_nul : W → Run W (Unit {0})
    write_nul w = sent_one (write w (0 ∷ []))

    abbrev pub write_begin : W → Run W (Unit {0})
    write_begin w = sent (write w (codes "BEGIN" ++ 13 ∷ 10 ∷ []))

    abbrev pub get_name : ℕ → W → Run W Report
    get_name rounds = wait_reply rounds >>= report

    abbrev pub say_hello : ℕ → W → Run W Report
    say_hello rounds = send_hello (serialize hello) >> get_name rounds

    -- Behind the answer of the bus to `AUTH`.
    abbrev pub answered : ℕ → List ℕ → W → Run W Report
    answered rounds resp w =
        if same_bytes (take 2 resp) (codes "OK")
        then (write_begin >> say_hello rounds) w
        else ended gave_up w

    abbrev pub authenticate : ℕ → ℕ → W → Run W Report
    authenticate lines rounds = read_line lines [] >>= answered rounds

    -- The `try` block of `main`; `lines` and `rounds` are fuel.
    unfoldable pub converse : ℕ → ℕ → ℕ → W → Run W Report
    converse uid lines rounds = write_nul >> (write_auth uid >> authenticate lines rounds)

    -- `main`, with the number of the user and what `getenv` gives. What it returns is 0 after a report
    -- and 1 after a fault.
    module _ (socket : W → Bool × W) (connect : W → List ℕ → Bool × W) (close : W → W) where
      abbrev pub closing : Run W Report → Run W Report
      closing (ran rep w) = ran rep (close w)
      closing (ended f w) = ended f (close w)

      abbrev pub connected_to : ℕ → ℕ → ℕ → Bool × W → Run W Report
      connected_to uid lines rounds (false, w) = ended gave_up (close w)
      connected_to uid lines rounds (true, w) = closing (converse uid lines rounds w)

      abbrev pub opened : ℕ → ℕ → ℕ → List ℕ → Bool × W → Run W Report
      opened uid lines rounds path (false, w) = ended gave_up w
      opened uid lines rounds path (true, w) =
          connected_to uid lines rounds (connect w (take 107 path))

      unfoldable pub main : ℕ → Option (List ℕ) → ℕ → ℕ → W → Run W Report
      main uid env lines rounds w = opened uid lines rounds (socket_path uid env) (socket w)
