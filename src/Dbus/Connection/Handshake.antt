-- ===== src/Dbus/Connection/Handshake.antt =====
-- dbus/connection.cpp: from the authentication to the name that the bus gives a connection.
use firmir.Base.{
  ℕ, zero, suc, ◌<◌, ◌≤◌, ◌≡◌, ◌≢◌, refl, sym, ap, ◌∙◌, arith, true, false, Option, none, some,
  List, [], ◌∷◌, ◌++◌, append-nil, append_assoc, codes, All, length, take, same_bytes, ◌==◌,
  if◌then◌else◌, Bool-cases, inl, inr, ne→==_false,
}
use firmir.Dbus.Wire.{little}
use firmir.Dbus.Message.Header.{method_call}
use firmir.Dbus.Message.Api.{set_destination, set_path, set_interface, set_member}
use firmir.Dbus.Message.Private.{
  default_reader, default_writer, MessagePrivate, ReadResult, got, Io, returned, halted, serialize,
}
use firmir.Dbus.Message.Private.Stream.{Stream}
use firmir.Dbus.Connection.{
  auth, getting_name, same_state, System, contains, assign, update_state, hello_msg, hello_sent,
  do_get_name, is_ready, send, send_as, send_bytes, finish_auth, keep_char, do_auth, read_data,
}
use firmir.Dbus.Connection.Serials.{Free, free_serial_lem, erase-none, length-serialize}
use firmir.Dbus.Connection.Authentication.{HasRoom}

-- The characters of a line that are kept.
unfoldable pub kept : List ℕ → List ℕ
kept [] = []
kept (c ∷ cs) = let rest = kept cs in if c == 13 then rest else c ∷ rest

-- A descriptor that has no byte only at the end of its stream.
abbrev pub Prompt : {W : Type 0} (read : W → ℕ → ReadResult × W) → Stream read → Type 0
Prompt {W} read stream =
    (w : W) → 0 < length (stream.pending w) → (bs : List ℕ) × (w' : W) × (read w 1 ≡ (got bs, w'))

-- A call of `write` that does not fail.
abbrev pub Accepts : {W : Type 0} → (W → List ℕ → Option ℕ × W) → Type 0
Accepts {W} write = (w : W) (bs : List ℕ) → (k : ℕ) × (w' : W) × (write w bs ≡ (some k, w'))

single :
    (bs xs : List ℕ) (c : ℕ) (ys : List ℕ)
    → c ∷ xs ≡ bs ++ ys
    → 0 < length bs
    → length bs ≤ 1
    → (bs ≡ c ∷ []) × (xs ≡ ys)
single [] xs c ys e l h = absurd (omega arith)
single (b ∷ []) xs c ys e l h = (cc e, cc e)
single (b ∷ b' ∷ bs) xs c ys e l h = absurd (omega arith)

-- A call of the bus itself, under the serial `n`.
abbrev pub bus_call : List ℕ → ℕ → MessagePrivate
bus_call member n = record {
  fixed_header = record {
    endian = little;
    type = method_call;
    flags = 0;
    version = 1;
    body_len = 0;
    serial = n;
    fields_len = 0;
    valid = false;
  };
  dynamic_header = record {
    path = some (codes "/org/freedesktop/DBus");
    interface = some (codes "org.freedesktop.DBus");
    member = some member;
    error_name = none;
    reply_serial = none;
    destination = some (codes "org.freedesktop.DBus");
    sender = none;
    signature = none;
    unix_fds = none;
    valid = false;
  };
  reader = default_reader;
  writer = default_writer;
  valid = true;
}

-- The call `Hello` is outstanding, under the serial `k`, as the reply `h`, behind the others.
pub record Waits {W : Type 0} (replies_before : List (ℕ × ℕ))
    (results_before : List (Option MessagePrivate)) (k h : ℕ) (s' : System W) : Type 0 where
  pub state : s'.connection.state ≡ getting_name
  pub hello : s'.hello ≡ some h
  pub last : h ≡ length results_before
  pub results : s'.results ≡ results_before ++ none ∷ []
  pub fresh : contains k replies_before ≡ false
  pub replies : s'.connection.replies ≡ (k, h) ∷ replies_before

module _ {W : Type 0} (read : W → ℕ → ReadResult × W) (write : W → List ℕ → Option ℕ × W) where
  abbrev pub with_line : System W → List ℕ → W → System W
  with_line s l w = record s {
    connection = record (s.connection) { auth_data = s.connection.auth_data ++ kept l };
    kernel = w;
  }

  keep_char-with_line :
      (c : ℕ) (l : List ℕ) (s : System W) (w w' : W)
      → with_line (keep_char c (record s { kernel = w })) l w' ≡ with_line s (c ∷ l) w'
  unfolding keep_char kept
  keep_char-with_line c l s w w' = elim (Bool-cases (c == 13)) [
    | inl t ↦ rw t
    | inr f ↦ rw (f, append_assoc)
  ]

  no_line : (s : System W) (w : W) → ◌≡◌ {A = System W} (record s { kernel = w }) (with_line s [] w)
  unfolding kept
  no_line s w = rw (append-nil s.connection.auth_data)

  keep_char-kernel : (c : ℕ) (s : System W) → (keep_char c s).kernel ≡ s.kernel
  unfolding keep_char
  keep_char-kernel c s = elim (Bool-cases (c == 13)) [ inl t ↦ rw t | inr f ↦ rw f ]

  module _ (stream : Stream read) (prompt : Prompt read stream) where
    open stream use {pending, delivers}

    next :
        (w : W) (c : ℕ) (cs : List ℕ)
        → pending w ≡ c ∷ cs
        → (w' : W) × (read w 1 ≡ (got (c ∷ []), w')) × (pending w' ≡ cs)
    next w c cs q =
        let (bs, w', e) = prompt w (omega (arith, ap length q)) in
        let (d, l, h) = delivers w 1 bs w' (omega arith) e in
        let (one, rest) = single bs cs c (pending w') (sym q ∙ d) l h in
        (w', e ∙ ap (λ (x : List ℕ). (got x, w')) one, sym rest)

    -- Up to the end of a line, `doAuth` keeps its characters, but for `\r`, and leaves the rest of the
    -- stream where it is.
    do_auth-finish_auth :
        (l rest : List ℕ) (fuel : ℕ) (s : System W)
        → All (λ c. c ≢ 10) l
        → pending s.kernel ≡ l ++ 10 ∷ rest
        → length l < fuel
        → (w : W) × (do_auth read write fuel s ≡ finish_auth read write (with_line s l w))
          × (pending w ≡ rest)
    unfolding do_auth
    do_auth-finish_auth l rest zero s a q h = absurd (omega arith)
    do_auth-finish_auth [] rest (suc fuel) s a q h =
        let (w, e, p) = next s.kernel 10 rest q in
        (w, rw e (ap (finish_auth read write) (no_line s w)), p)
    do_auth-finish_auth (c ∷ l) rest (suc fuel) s (n, a) q h =
        let (w, e, p) = next s.kernel c (l ++ 10 ∷ rest) q in
        let here : pending (keep_char c (record s { kernel = w })).kernel ≡ l ++ 10 ∷ rest =
          ap pending (keep_char-kernel c (record s { kernel = w })) ∙ p in
        let (w', i, p') =
          do_auth-finish_auth l rest fuel (keep_char c (record s { kernel = w })) a here
            (omega arith) in
        (
          w',
          rw (e, ne→==_false c 10 n)
              (i ∙ ap (finish_auth read write) (keep_char-with_line c l s w w')),
          p',
        )

  -- The latest call of the kernel was one of `write`, with the call `Hello` under the serial `k`; it did
  -- not fail, and that call is outstanding.
  abbrev pub Asks : System W → Io (System W) (Unit {0}) → Type 0
  Asks s (halted e) = ⊥
  Asks s (returned u s') =
      (k : ℕ) × (h : ℕ) × Waits s.connection.replies s.results k h s'
      × ((w : W) × (t : ℕ) × (write w (serialize (bus_call (codes "Hello") k)).0
            ≡ (some t, s'.kernel)))

  send_bytes-Asks :
      (s s1 : System W) (n : ℕ) (x : List ℕ × MessagePrivate)
      → Accepts write
      → 0 < length x.0
      → x.0 ≡ (serialize (bus_call (codes "Hello") n)).0
      → x.1.fixed_header.serial ≡ n
      → contains n s.connection.replies ≡ false
      → s1.connection.state ≡ getting_name
      → s1.results ≡ s.results
      → s1.connection.replies ≡ s.connection.replies
      → Asks s (hello_sent read write (send_bytes read write x s1))
  unfolding assign
  send_bytes-Asks s s1 n ([], m) accepts l y q f a r t = absurd (omega arith)
  send_bytes-Asks s s1 n (b ∷ bs, m) accepts l y q f a r t =
      let (k, w, e) = accepts s1.kernel (b ∷ bs) in
      rw e (
        n,
        length s1.results,
        record {
          state = a;
          hello = refl;
          last = ap length r;
          results = ap (λ rs. rs ++ none ∷ []) r;
          fresh = f;
          replies = rw (q, t, erase-none n s.connection.replies f);
        },
        (s1.kernel, k, ap (write s1.kernel) (sym y) ∙ e),
      )

  send_as-Asks :
      (s s1 : System W) (o : Option ℕ)
      → Accepts write
      → Free s.connection.replies o
      → s1.connection.state ≡ getting_name
      → s1.results ≡ s.results
      → s1.connection.replies ≡ s.connection.replies
      → Asks s (hello_sent read write (send_as read write o hello_msg s1))
  unfolding serialize set_member set_interface set_path set_destination
  send_as-Asks s s1 o accepts (n, e, f, l) a r t = rw e (
      send_bytes-Asks s _ n _ accepts
        (length-serialize
          (record hello_msg { fixed_header = record (hello_msg.fixed_header) { serial = n } }))
        refl refl f a r t)

  do_get_name-Asks :
      (s : System W)
      → Accepts write
      → HasRoom s
      → s.connection.state ≡ auth
      → Asks s (do_get_name read write s)
  unfolding do_get_name send update_state same_state is_ready
  do_get_name-Asks s accepts room a = rw a (
      send_as-Asks (record s { connection = record (s.connection) { state = auth } })
        (record s {
          connection = record (s.connection) { state = getting_name };
          events = getting_name ∷ s.events;
        })
        _ accepts
        (free_serial_lem s.connection.replies s.connection.next_serial room.outstanding room.serial)
        refl refl refl)

  finish_auth-Asks :
      (s : System W)
      → Accepts write
      → HasRoom s
      → s.connection.state ≡ auth
      → same_bytes (take 2 s.connection.auth_data) (codes "OK") ≡ true
      → Asks s (finish_auth read write s)
  unfolding finish_auth
  finish_auth-Asks s accepts room a ok =
      let (k, w, e) = accepts s.kernel (codes "BEGIN" ++ 13 ∷ 10 ∷ []) in
      rw (ok, e)
        (do_get_name-Asks (record s { kernel = w }) accepts
          (record { outstanding = room.outstanding; serial = room.serial }) a)

  -- In the state Auth, over a descriptor that has the rest of a line without delay, and whose writes do
  -- not fail: where the text so far and the line begin with `OK`, and fewer than 2 ^ 32 replies are
  -- outstanding, `readData` returns with the state GettingName, and with the call `Hello` outstanding
  -- under a serial that was not in use: the bytes that were handed to `write` last, which has not
  -- failed, are those of a call of the member `Hello` of the bus under that serial.
  pub read_data-Asks :
      (stream : Stream read) (prompt : Prompt read stream) (l rest : List ℕ) (fuel : ℕ)
      (s : System W)
      → Accepts write
      → HasRoom s
      → s.connection.state ≡ auth
      → All (λ c. c ≢ 10) l
      → stream.pending s.kernel ≡ l ++ 10 ∷ rest
      → length l < fuel
      → same_bytes (take 2 (s.connection.auth_data ++ kept l)) (codes "OK") ≡ true
      → Asks s (read_data read write fuel s)
  unfolding read_data same_state
  read_data-Asks stream prompt l rest fuel s accepts room a plain q h ok =
      let (w, e, p) = do_auth-finish_auth stream prompt l rest fuel s plain q h in
      let at_auth : same_state s.connection.state auth ≡ true = rw a in
      rw (at_auth, e)
        (finish_auth-Asks (with_line s l w) accepts
          (record { outstanding = room.outstanding; serial = room.serial }) a ok)
