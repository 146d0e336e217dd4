-- ===== src/Dbus/Message/Private/Receive.antt =====
-- dbus/message.cpp: `readFd` on the bytes that `serialize` gave.
use firmir.Base.{
  ap, ℕ, ◌+◌, ◌≤◌, ◌<◌, ◌≡◌, refl, sym, ◌∙◌, arith, List, [], ◌∷◌, ◌++◌, append_assoc, length,
  length-append, le→leb,
}
use firmir.Dbus.Message.Private.{
  MessagePrivate, default_message, default_reader, serialize, ReadResult, ReadFdRes, success,
  failure, would_block_res, Io, returned, halted, attempt, parse_fixed, parse_dynamic, total_size,
  ensure_data, on_success, of_attempt, read_fd, fail,
}
use firmir.Dbus.Message.Private.Stream.{
  Stream, Broken, Starved, set_bytes, Kept, Fetches, ensure_data-Fetches,
}
use firmir.Dbus.Message.Private.Sent.{
  IsSendable, fields, fixed, header, pad, wire, received, begun, length-fixed, serialize-wire,
  total_size_lem, parse_dynamic_lem, parse_fixed_lem,
}

append_cut {ℓ} :
    {A : Type ℓ} (xs xs' ys ys' : List A)
    → length xs ≡ length xs'
    → xs ++ ys ≡ xs' ++ ys'
    → (xs ≡ xs') × (ys ≡ ys')
append_cut [] [] ys ys' h e = (refl, e)
append_cut [] (x ∷ xs') ys ys' h e = absurd (omega arith)
append_cut (x ∷ xs) [] ys ys' h e = absurd (omega arith)
append_cut (x ∷ xs) (x' ∷ xs') ys ys' h e =
    let head : x ≡ x' = cc in
    let tail : xs ++ ys ≡ xs' ++ ys' = cc in
    let (front, back) = append_cut xs xs' ys ys' (omega arith) tail in (cc (head, front), back)

module _ {W : Type 0} (read : W → ℕ → ReadResult × W) (stream : Stream read) (m : MessagePrivate)
    (ok : IsSendable m) (rest : List ℕ) where
  open stream use {pending}

  -- A message that is being received: some of the bytes that were sent are in its buffer, and the
  -- stream goes on with the others and `rest`.
  pub data Receiving (m' : MessagePrivate) (w : W) : Type 0 where
    waiting :
        (bs : List ℕ)
        → m' ≡ set_bytes default_message bs
        → length bs ≤ 16
        → bs ++ pending w ≡ (serialize m).0 ++ rest
        → Receiving m' w
    started :
        (bs : List ℕ)
        → m' ≡ begun m ok bs
        → 16 ≤ length bs
        → length bs ≤ length (serialize m).0
        → bs ++ pending w ≡ (serialize m).0 ++ rest
        → Receiving m' w

  -- What `readFd` may come to, with `had` bytes in the buffer at the call.
  abbrev pub Ends : ℕ → Io W (ReadFdRes × MessagePrivate) → Type 0
  Ends had (returned (success, m') w) = (m' ≡ received m ok) × (pending w ≡ rest)
  Ends had (returned (would_block_res, m') w) =
      Receiving m' w
      × (had ≤ length m'.reader.bytes)
      × (length m'.reader.bytes < length (serialize m).0)
      × Starved read stream w
  Ends had (returned (failure, m') w) = (m'.reader ≡ default_reader) × Broken read stream w
  Ends had (halted s) = ⊥

  -- The end of `readFd`, behind its second call of `unsureHasData`.
  finish : Io W (ReadFdRes × MessagePrivate) → Io W (ReadFdRes × MessagePrivate)
  finish io = on_success read io λ m3 w3.
      on_success read (of_attempt read (parse_dynamic m3) w3) λ m4 w4. returned (success, m4) w4

  finish_whole :
      (had : ℕ) (m' : MessagePrivate) (w' : W)
      → m' ≡ begun m ok (serialize m).0
      → pending w' ≡ rest
      → Ends had (finish (returned (success, m') w'))
  unfolding finish
  finish_whole had m' w' e q = rw (e, serialize-wire m ok, parse_dynamic_lem m ok) (refl, q)

  -- With the buffer in place of `bs` the state is that of the same reception.
  grown :
      (bs : List ℕ) (w : W) (m' : MessagePrivate) (w' : W)
      → bs ++ pending w ≡ (serialize m).0 ++ rest
      → Kept read stream (length (serialize m).0) (begun m ok bs) w m' w'
      → (m' ≡ begun m ok m'.reader.bytes)
        × (m'.reader.bytes ++ pending w' ≡ (serialize m).0 ++ rest)
  unfolding begun
  grown bs w m' w' e kept = (kept.rest, sym kept.stream_kept ∙ e)

  finish-Ends :
      (had : ℕ) (bs : List ℕ) (w : W) (io : Io W (ReadFdRes × MessagePrivate))
      → had ≤ length bs
      → 16 ≤ length bs
      → length bs ≤ length (serialize m).0
      → bs ++ pending w ≡ (serialize m).0 ++ rest
      → Fetches read stream (length (serialize m).0) (begun m ok bs) w io
      → Ends had (finish io)
  unfolding finish fail begun
  finish-Ends had bs w (returned (success, m') w') from lo hi e (kept, full) =
      let (same, onward) = grown bs w m' w' e kept in
      let (whole, left) =
        append_cut m'.reader.bytes (serialize m).0 (pending w') rest
          (omega (arith, kept.bounded, full)) onward in
      finish_whole had m' w' (same ∙ ap (begun m ok) whole) left
  finish-Ends had bs w (returned (would_block_res, m') w') from lo hi e (kept, short, starved) =
      let (same, onward) = grown bs w m' w' e kept in
      (
        started m'.reader.bytes same (omega (arith, kept.grown)) (omega (arith, short)) onward,
        omega (arith, kept.grown),
        short,
        starved,
      )
  finish-Ends had bs w (returned (failure, m') w') from lo hi e broken = (refl, broken)
  finish-Ends had bs w (halted s) from lo hi e r = r

  -- `readFd` behind its first call of `unsureHasData`, with the fixed header read or to be read.
  behind_header : Io W (ReadFdRes × MessagePrivate) → Io W (ReadFdRes × MessagePrivate)
  unfolding finish
  behind_header io =
      on_success read io λ m2 w2. finish (ensure_data read (total_size m2.fixed_header) m2 w2)

  size_lem : total_size (header m ok) ≡ length (serialize m).0
  size_lem = total_size_lem m ok ∙ ap length (sym (serialize-wire m ok))

  ensured :
      (bs : List ℕ) (w : W)
      → 16 ≤ length bs
      → ensure_data read 16 (begun m ok bs) w ≡ returned (success, begun m ok bs) w
  unfolding ensure_data begun
  ensured bs w h = rw (le→leb 16 (length bs) h)

  parsed : (bs : List ℕ) → parse_fixed (begun m ok bs) ≡ attempt success (begun m ok bs)
  unfolding parse_fixed begun header
  parsed bs = refl

  begun-Ends :
      (had : ℕ) (bs : List ℕ) (w : W)
      → had ≤ length bs
      → 16 ≤ length bs
      → length bs ≤ length (serialize m).0
      → bs ++ pending w ≡ (serialize m).0 ++ rest
      → Ends had (behind_header (returned (success, begun m ok bs) w))
  unfolding behind_header begun
  begun-Ends had bs w from lo hi e = rw size_lem (
      finish-Ends had bs w _ from lo hi e
        (ensure_data-Fetches read stream (length (serialize m).0) (begun m ok bs) w))

  size_cut : length (serialize m).0 ≡ 16 + length (fields m ok ++ (pad m ok ++ m.writer.bytes))
  unfolding wire
  size_cut = rw (serialize-wire m ok) (
      omega (
        arith,
        length-append (fixed m ok) (fields m ok ++ (pad m ok ++ m.writer.bytes)),
        length-fixed m ok,
      ))

  -- The first sixteen bytes are the fixed header.
  first_bytes :
      (bs more : List ℕ) → length bs ≡ 16 → bs ++ more ≡ (serialize m).0 ++ rest → bs ≡ fixed m ok
  unfolding wire
  first_bytes bs more h e =
      let behind = fields m ok ++ (pad m ok ++ m.writer.bytes) in
      let onward : bs ++ more ≡ fixed m ok ++ (behind ++ rest) =
        rw (serialize-wire m ok, append_assoc (fixed m ok) behind rest) at e in
      (append_cut bs (fixed m ok) more (behind ++ rest) (omega (arith, length-fixed m ok)) onward).0

  header_read :
      (had : ℕ) (m' : MessagePrivate) (w : W)
      → had ≤ 16
      → m' ≡ set_bytes default_message (fixed m ok)
      → fixed m ok ++ pending w ≡ (serialize m).0 ++ rest
      → Ends had (behind_header (of_attempt read (parse_fixed m') w))
  header_read had m' w from e q =
      rw (e, parse_fixed_lem m ok)
        (begun-Ends had (fixed m ok) w (omega (arith, length-fixed m ok))
          (omega (arith, length-fixed m ok)) (omega (arith, size_cut, length-fixed m ok)) q)

  start-Ends :
      (bs : List ℕ) (w : W) (io : Io W (ReadFdRes × MessagePrivate))
      → length bs ≤ 16
      → bs ++ pending w ≡ (serialize m).0 ++ rest
      → Fetches read stream 16 (set_bytes default_message bs) w io
      → Ends
          (length bs)
          (on_success read io λ m1 w1. behind_header (of_attempt read (parse_fixed m1) w1))
  unfolding fail
  start-Ends bs w (returned (success, m') w') hi e (kept, full) =
      let onward : m'.reader.bytes ++ pending w' ≡ (serialize m).0 ++ rest =
        sym kept.stream_kept ∙ e in
      let same =
        first_bytes m'.reader.bytes (pending w') (omega (arith, kept.bounded, full)) onward in
      header_read (length bs) m' w' hi (kept.rest ∙ ap (set_bytes default_message) same)
        (rw same at onward)
  start-Ends bs w (returned (would_block_res, m') w') hi e (kept, short, starved) = (
    waiting m'.reader.bytes kept.rest (omega (arith, short)) (sym kept.stream_kept ∙ e),
    kept.grown,
    omega (arith, short, size_cut),
    starved,
  )
  start-Ends bs w (returned (failure, m') w') hi e broken = (refl, broken)
  start-Ends bs w (halted s) hi e r = r

  -- The bytes of a message that the format can carry, in the byte order of the host, arrive over a
  -- descriptor that delivers them in pieces of any size. A call of `readFd` at any point of the
  -- reception succeeds with the message that was sent, its reader at the body, and has left what is
  -- behind the message in the stream; or it gives WouldBlock at a point of the same reception with at
  -- least the bytes that it had before, but fewer than the message has, and then its last call of
  -- `read` had no data yet; or it fails with an empty reader, its last call of `read` having failed with
  -- another error. It
  -- never runs out of fuel or reads outside the buffer.
  pub read_fd-Ends :
      (m' : MessagePrivate) (w : W)
      → Receiving m' w
      → Ends (length m'.reader.bytes) (read_fd read m' w)
  unfolding read_fd behind_header finish begun
  read_fd-Ends m' w (waiting bs e hi q) =
      rw e (
        start-Ends bs w _ hi q
          (ensure_data-Fetches read stream 16 (set_bytes default_message bs) w))
  read_fd-Ends m' w (started bs e lo hi q) =
      rw (e, ensured bs w lo, parsed bs) (begun-Ends (length bs) bs w (omega arith) lo hi q)
