-- ===== src/Dbus/Connection/Serials.antt =====
-- `ConnectionPrivate::send` of dbus/connection.cpp: the serial that it chooses, and the reply that it
-- adds.
use firmir.Base.{
  ℕ, zero, suc, ◌+◌, ◌%◌, ◌^◌, ◌≤◌, ◌<◌, ◌≡◌, ◌≢◌, refl, sym, ap, arith, true, false, Option, none,
  some, List, [], ◌∷◌, ◌++◌, length, ◌⊎◌, Bool-cases, inl, inr,
}
use firmir.Dbus.Wire.{little}
use firmir.Dbus.Message.Header.{serialize_dynamic}
use firmir.Dbus.Message.Header.FixedRoundTrip.{serialize_fixed_lem}
use firmir.Dbus.Message.Private.{
  default_writer, with_lengths, MessagePrivate, ReadResult, Io, returned, halted, serialize,
}
use firmir.Dbus.Connection.{
  System, contains, erase, assign, free_serial, is_ready, send, send_as, send_bytes, written,
}

contains-erase :
    (q n : ℕ) (rs : List (ℕ × ℕ)) → q ≢ n → contains q rs ≡ true → contains q (erase n rs) ≡ true
unfolding contains erase
contains-erase q n [] h c = c
contains-erase q n ((j, x) ∷ rs) h c = ground (arith, contains-erase q n rs h)

length-erase-le : (n : ℕ) (rs : List (ℕ × ℕ)) → length (erase n rs) ≤ length rs
unfolding erase
length-erase-le n [] = omega arith
length-erase-le n ((j, x) ∷ rs) = ground (arith, length-erase-le n rs)

length-erase : (n : ℕ) (rs : List (ℕ × ℕ)) → contains n rs ≡ true → length (erase n rs) < length rs
unfolding contains erase
length-erase n [] c = absurd (cc c)
length-erase n ((j, x) ∷ rs) c = ground (arith, length-erase n rs, length-erase-le n rs)

pub erase-none : (n : ℕ) (rs : List (ℕ × ℕ)) → contains n rs ≡ false → erase n rs ≡ rs
unfolding contains erase
erase-none n [] c = refl
erase-none n ((j, x) ∷ rs) c = ground (arith, erase-none n rs)

-- A serial that is not in use.
abbrev pub Free : List (ℕ × ℕ) → Option ℕ → Type 0
Free rs o = (k : ℕ) × (o ≡ some k) × (contains k rs ≡ false) × (k < 2 ^ 32)

-- Of the serials that the loop still has to try, those in use are in `left`, which has fewer entries
-- than the loop has rounds.
free_serial-Free :
    (fuel : ℕ) (rs left : List (ℕ × ℕ)) (n : ℕ)
    → ((i : ℕ)
        → i < fuel
        → contains ((n + i) % 2 ^ 32) rs ≡ true
        → contains ((n + i) % 2 ^ 32) left ≡ true)
    → length left < fuel
    → fuel ≤ 2 ^ 32
    → n < 2 ^ 32
    → Free rs (free_serial fuel rs n)
unfolding free_serial
free_serial-Free zero rs left n h l b k = absurd (omega arith)
free_serial-Free (suc fuel) rs left n h l b k = elim (Bool-cases (contains n rs)) [
  | inr f ↦ rw f (n, refl, f, k)
  | inl t ↦
      let here : (n + 0) % 2 ^ 32 ≡ n = omega arith in
      let used : contains n left ≡ true = rw here at (h 0 (omega arith) (rw here t)) in
      rw t (
        free_serial-Free fuel rs (erase n left) ((n + 1) % 2 ^ 32)
          (λ i lt c.
            let next : ((n + 1) % 2 ^ 32 + i) % 2 ^ 32 ≡ (n + (i + 1)) % 2 ^ 32 = omega arith in
            rw next (
              contains-erase ((n + (i + 1)) % 2 ^ 32) n left (λ p. omega arith)
                (h (i + 1) (omega arith) (rw next at c))))
          (omega (arith, length-erase n left used)) (omega arith) (omega arith))
]

-- Among fewer than 2 ^ 32 replies, the loop over the serials ends with one that is not in use, after
-- one round more than there are replies at the latest.
pub free_serial_lem :
    (rs : List (ℕ × ℕ)) (n : ℕ)
    → length rs < 2 ^ 32
    → n < 2 ^ 32
    → Free rs (free_serial (length rs + 1) rs n)
free_serial_lem rs n l k =
    free_serial-Free (length rs + 1) rs rs n (λ i lt c. c) (omega arith) (omega arith) k

-- What `serialize` gives has sixteen bytes at least, so that `send` does not refuse it.
pub length-serialize : (m : MessagePrivate) → 0 < length (serialize m).0
unfolding serialize
length-serialize m =
    let fields = (serialize_dynamic m.dynamic_header default_writer).bytes in
    rw (serialize_fixed_lem (with_lengths m fields) little) (omega arith)

-- The message with the serial `n`.
abbrev pub numbered : ℕ → MessagePrivate → MessagePrivate
numbered n m = record m { fixed_header = record (m.fixed_header) { serial = n } }

module _ {W : Type 0} (read : W → ℕ → ReadResult × W) (write : W → List ℕ → Option ℕ × W) where
  -- What `send` of `m` may come to, from the system `s`: no reply and none added, since the
  -- connection is not ready or `write` has failed; or a new reply without
  -- a result, under a serial that no other reply has, and `m` with that serial written.
  abbrev pub Sends : MessagePrivate → System W → Io (System W) (Option ℕ × MessagePrivate) → Type 0
  Sends m s (halted e) = ⊥
  Sends m s (returned (none, m') s') =
      (s'.connection.replies ≡ s.connection.replies)
      × (s'.results ≡ s.results)
      × ((is_ready s.connection.state ≡ false)
          ⊎ ((n : ℕ) × (write s.kernel (serialize (numbered n m)).0 ≡ (none, s'.kernel))))
  Sends m s (returned (some h, m') s') =
      (s'.connection.replies ≡ (m'.fixed_header.serial, h) ∷ s.connection.replies)
      × (contains m'.fixed_header.serial s.connection.replies ≡ false)
      × (h ≡ length s.results)
      × (s'.results ≡ s.results ++ none ∷ [])
      × ((k : ℕ) × (write s.kernel (serialize (numbered m'.fixed_header.serial m)).0
            ≡ (some k, s'.kernel)))
      × (m' ≡ (serialize (numbered m'.fixed_header.serial m)).1)

  written-Sends :
      (m : MessagePrivate) (s : System W) (c : ℕ) (m' : MessagePrivate) (o : Option ℕ × W)
      → contains m'.fixed_header.serial s.connection.replies ≡ false
      → write s.kernel (serialize (numbered m'.fixed_header.serial m)).0 ≡ o
      → m' ≡ (serialize (numbered m'.fixed_header.serial m)).1
      → Sends m s (
          written read write m'
            (record s { connection = record (s.connection) { next_serial = c } })
            o)
  unfolding assign
  written-Sends m s c m' (none, w) f e i = (refl, refl, inr (m'.fixed_header.serial, e))
  written-Sends m s c m' (some k, w) f e i = (
    ap (λ (rs : List (ℕ × ℕ)). (m'.fixed_header.serial, length s.results) ∷ rs)
        (erase-none m'.fixed_header.serial s.connection.replies f),
    f,
    refl,
    refl,
    (k, e),
    i,
  )

  send_bytes-Sends :
      (m : MessagePrivate) (s : System W) (c : ℕ) (bs : List ℕ) (m' : MessagePrivate)
      → contains m'.fixed_header.serial s.connection.replies ≡ false
      → bs ≡ (serialize (numbered m'.fixed_header.serial m)).0
      → m' ≡ (serialize (numbered m'.fixed_header.serial m)).1
      → Sends m s (
          send_bytes read write
            (bs, m')
            (record s { connection = record (s.connection) { next_serial = c } }))
  send_bytes-Sends m s c [] m' f e i =
      absurd (omega (arith, ap length e, length-serialize (numbered m'.fixed_header.serial m)))
  send_bytes-Sends m s c (b ∷ bs) m' f e i =
      written-Sends m s c m' (write s.kernel (b ∷ bs)) f (ap (write s.kernel) (sym e)) i

  send_as-Sends :
      (s : System W) (m : MessagePrivate) (o : Option ℕ)
      → Free s.connection.replies o
      → Sends m s (send_as read write o m s)
  unfolding serialize
  send_as-Sends s m o (n, e, f, l) =
      rw e (send_bytes-Sends m s ((n + 1) % 2 ^ 32) _ (serialize (numbered n m)).1 f refl refl)

  -- With fewer than 2 ^ 32 replies outstanding, `send` always returns: with no reply, and then it has
  -- added none, and the connection is neither in GettingName nor Connected or `write` has failed to take
  -- the message with a serial; or with a new reply that has no result yet and is entered under a serial which no other
  -- reply in the table has. Then the bytes that `serialize` gives for the message with that serial were
  -- handed to a call of `write` that did not fail, and the message is left as `serialize` leaves it.
  pub send-Sends :
      (m : MessagePrivate) (s : System W)
      → length s.connection.replies < 2 ^ 32
      → s.connection.next_serial < 2 ^ 32
      → Sends m s (send read write m s)
  unfolding send
  send-Sends m s l k = elim (Bool-cases (is_ready s.connection.state)) [
    | inl t ↦
        rw t
          (send_as-Sends s m _ (free_serial_lem s.connection.replies s.connection.next_serial l k))
    | inr f ↦ rw f (refl, refl, inl f)
  ]
