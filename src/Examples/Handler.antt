-- ===== src/Examples/Handler.antt =====
-- The struct `Handler` of examples/dbus.cpp, which asks the bus for its names once it is connected.
use firmir.Base.{
  ℕ, ◌+◌, ◌%◌, ◌^◌, ◌<◌, ◌≡◌, refl, sym, ap, arith, true, false, Option, none, some, List, [], ◌∷◌,
  ◌++◌, codes, length, if◌then◌else◌,
}
use firmir.Dbus.Message.Reader.{Stop}
use firmir.Dbus.Message.Private.{
  MessagePrivate, default_message, ReadResult, Io, returned, halted, serialize,
}
use firmir.Dbus.Message.Api.{set_destination, set_path, set_interface, set_member}
use firmir.Dbus.Connection.{
  State, connected, same_state, is_ready, System, contains, assign, send, send_as, send_bytes,
  written,
}
use firmir.Dbus.Connection.Serials.{Free, free_serial_lem, erase-none, length-serialize}
use firmir.Dbus.Connection.Handshake.{bus_call}

abbrev pub list_names_msg : MessagePrivate
list_names_msg = set_member (codes "ListNames") (
    set_interface (codes "org.freedesktop.DBus") (
      set_path (codes "/org/freedesktop/DBus")
        (set_destination (codes "org.freedesktop.DBus") default_message)))

-- What the callback of `StateChanged` comes to: nothing; a reply, to which it is connected; a null reply
-- that is dereferenced; or a fault of `send`.
pub data Listing (W : Type 0) : Type 0 where
  idle : System W → Listing W
  listing : ℕ → System W → Listing W
  null_reply : System W → Listing W
  broke : Stop → Listing W

is_connected : (v : State) → v ≡ connected → (same_state v connected ≡ true) × (is_ready v ≡ true)
unfolding same_state is_ready
is_connected v e = rw e (refl, refl)

module _ {W : Type 0} (read : W → ℕ → ReadResult × W) (write : W → List ℕ → Option ℕ × W) where
  abbrev pub connected_reply : Io (System W) (Option ℕ × MessagePrivate) → Listing W
  connected_reply (halted e) = broke e
  connected_reply (returned (none, m) s) = null_reply s
  connected_reply (returned (some h, m) s) = listing h s

  unfoldable pub list_names : System W → Listing W
  list_names s = connected_reply (send read write list_names_msg s)

  unfoldable pub on_state_changed : System W → Listing W
  on_state_changed s =
      let names = list_names s in if same_state s.connection.state connected then names else idle s

  -- A call of `write` with the call `ListNames` under a serial that is not in use: it did not fail, and
  -- there is a new reply without a result, which is entered under that serial; or it failed, and there
  -- is no reply.
  abbrev pub Lists : System W → Listing W → Type 0
  Lists s (idle s') = ⊥
  Lists s (listing h s') =
      (h ≡ length s.results)
      × ((s'.results ≡ s.results ++ none ∷ [])
          × ((n : ℕ) × (k : ℕ) × (contains n s.connection.replies ≡ false)
              × (s'.connection.replies ≡ (n, h) ∷ s.connection.replies)
              × (write s.kernel (serialize (bus_call (codes "ListNames") n)).0
                  ≡ (some k, s'.kernel))))
  Lists s (null_reply s') =
      (n : ℕ) × (contains n s.connection.replies ≡ false)
      × (write s.kernel (serialize (bus_call (codes "ListNames") n)).0 ≡ (none, s'.kernel))
  Lists s (broke e) = ⊥

  written-Lists :
      (m : MessagePrivate) (n c : ℕ) (s : System W) (o : Option ℕ × W)
      → m.fixed_header.serial ≡ n
      → contains n s.connection.replies ≡ false
      → write s.kernel (serialize (bus_call (codes "ListNames") n)).0 ≡ o
      → Lists s (
          connected_reply (
            written read write m
              (record s { connection = record (s.connection) { next_serial = c } })
              o))
  unfolding assign
  written-Lists m n c s (none, w) q f e = (n, f, e)
  written-Lists m n c s (some k, w) q f e =
      (refl, (refl, (n, k, f, rw (q, erase-none n s.connection.replies f), e)))

  send_bytes-Lists :
      (m : MessagePrivate) (bs : List ℕ) (n c : ℕ) (s : System W)
      → 0 < length bs
      → bs ≡ (serialize (bus_call (codes "ListNames") n)).0
      → m.fixed_header.serial ≡ n
      → contains n s.connection.replies ≡ false
      → Lists s (
          connected_reply (
            send_bytes read write
              (bs, m)
              (record s { connection = record (s.connection) { next_serial = c } })))
  send_bytes-Lists m [] n c s h y q f = absurd (omega arith)
  send_bytes-Lists m (b ∷ bs) n c s h y q f =
      written-Lists m n c s (write s.kernel (b ∷ bs)) q f (ap (write s.kernel) (sym y))

  send_as-Lists :
      (s : System W) (o : Option ℕ)
      → Free s.connection.replies o
      → Lists s (connected_reply (send_as read write o list_names_msg s))
  unfolding serialize set_member set_interface set_path set_destination
  send_as-Lists s o (n, e, f, l) =
      let m = bus_call (codes "ListNames") n in
      rw e (
        send_bytes-Lists (serialize m).1 (serialize m).0 n ((n + 1) % 2 ^ 32) s (length-serialize m)
          refl refl f)

  -- When the connection has become Connected, with fewer than 2 ^ 32 replies outstanding, the example
  -- asks for the names: it hands to `write` the bytes of a call of the member `ListNames` of the bus,
  -- under a serial that is not in use. Where `write` does not fail it has a new reply, still without a
  -- result and entered under that serial, and where `write` fails it dereferences the null pointer that
  -- `send` returns.
  pub on_state_changed-Lists :
      (s : System W)
      → s.connection.state ≡ connected
      → length s.connection.replies < 2 ^ 32
      → s.connection.next_serial < 2 ^ 32
      → Lists s (on_state_changed s)
  unfolding on_state_changed list_names send
  on_state_changed-Lists s c l k =
      let both = is_connected s.connection.state c in
      rw (both.0, both.1)
        (send_as-Lists s _ (free_serial_lem s.connection.replies s.connection.next_serial l k))
