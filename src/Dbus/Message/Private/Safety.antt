-- ===== src/Dbus/Message/Private/Safety.antt =====
-- `readFd` of dbus/message.cpp on any bytes.
use firmir.Base.{
  ℕ, ◌^◌, ◌≤◌, ◌≡◌, refl, sym, ap, ◌∙◌, arith, Bool, true, false, List, ◌++◌, length, All, All-left,
  Bool-cases, inl, inr,
}
use firmir.Dbus.Wire.{IsByte, IsUint32}
use firmir.Dbus.Message.Reader
use firmir.Dbus.Message.Reader.{
  Reader, out_of_bounds, bad_optional_access, out_of_fuel, Outcome, done, stopped, ◌>>=◌, branch,
  pure, current, read_uint8, read_uint32,
}
use firmir.Dbus.Message.Reader.Safety.{IsValid, IsAhead, IsAhead-IsValid, Within}
use firmir.Dbus.Message.Header.{DynamicHeader, read_dynamic}
use firmir.Dbus.Message.Header.FixedSafety.{moved, read_fixed-Fixed}
use firmir.Dbus.Message.Reader.Overrun.{HasWrap, Ends}
use firmir.Dbus.Message.Header.Safety.{align-Within, read_dynamic-Ends}
use firmir.Dbus.Message.Private.{
  MessagePrivate, default_reader, ReadResult, ReadFdRes, success, failure, would_block_res, Io,
  returned, halted, parse_fixed, parse_dynamic, with_dynamic, at_body, total_size, header_total,
  ensure_data, on_success, of_attempt, read_fd, fail,
}
use firmir.Dbus.Message.Private.Stream.{Stream, Kept, Fetches, ensure_data-Fetches}

-- A message that is being received: before its fixed header is read, and behind that.
pub data Receiving (m : MessagePrivate) : Type 0 where
  waiting :
      m.fixed_header.valid ≡ false
      → m.dynamic_header.valid ≡ false
      → m.reader.pos ≡ 0
      → length m.reader.bytes ≤ 16
      → Receiving m
  begun :
      m.fixed_header.valid ≡ true
      → m.dynamic_header.valid ≡ false
      → m.reader.pos ≡ 16
      → IsUint32 m.fixed_header.body_len
      → 16 ≤ length m.reader.bytes
      → length m.reader.bytes ≤ 2 ^ 34
      → Receiving m

module _ {W : Type 0} (read : W → ℕ → ReadResult × W) (stream : Stream read) where
  open stream use {pending}

  -- What `readFd` may come to, with the stream `bs` in its buffer and to come: a message whose reader
  -- is inside its buffer; one that is still being received; a failure, after which the buffer is empty;
  -- or a read over the end of the buffer, with a length of 2 ^ 32 - 1 behind the fixed header in a front
  -- part of the stream.
  abbrev pub Comes : List ℕ → Io W (ReadFdRes × MessagePrivate) → Type 0
  Comes bs (returned (success, m) w) = IsValid m.reader × (m.reader.bytes ++ pending w ≡ bs)
  Comes bs (returned (would_block_res, m) w) = Receiving m × (m.reader.bytes ++ pending w ≡ bs)
  Comes bs (returned (failure, m) w) = m.reader ≡ default_reader
  Comes bs (halted out_of_bounds) =
      (r : Reader) × (rest : List ℕ) × (r.bytes ++ rest ≡ bs) × HasWrap 16 r
  Comes bs (halted bad_optional_access) = ⊥
  Comes bs (halted out_of_fuel) = ⊥

  body_Comes :
      (m : MessagePrivate) (h : DynamicHeader) (r : Reader) (o : Outcome Bool) (w : W) (bs : List ℕ)
      → m.reader.bytes ++ pending w ≡ bs
      → IsValid m.reader
      → IsAhead m.reader r
      → Within r o
      → Comes bs
          (on_success read (of_attempt read (at_body m h o) w) λ m4 w4. returned (success, m4) w4)
  unfolding fail
  body_Comes m h r (stopped s) w bs q v a b = absurd b
  body_Comes m h r (done ok r') w bs q v a b = elim (Bool-cases h.valid) [
    | inl t ↦ rw t (
      IsAhead-IsValid r r' (IsAhead-IsValid m.reader r v a) b,
      ap (λ x. x ++ pending w) (b.bytes ∙ a.bytes) ∙ q,
    )
    | inr n ↦ rw n
  ]

  -- Behind the second call of `unsureHasData`.
  parsed_Comes :
      (m : MessagePrivate) (w : W) (bs : List ℕ)
      → m.dynamic_header.valid ≡ false
      → m.reader.pos ≡ 16
      → IsValid m.reader
      → m.reader.bytes ++ pending w ≡ bs
      → Comes bs
          (on_success read (of_attempt read (parse_dynamic m) w) λ m4 w4. returned (success, m4) w4)
  unfolding parse_dynamic
  parsed_Comes m w bs d p v q = rw d (
      go (read_dynamic (header_total m.fixed_header) m.reader)
        (read_dynamic-Ends 16 (header_total m.fixed_header) m.reader v (omega (arith, p))))
    where
      go :
          (o : Outcome DynamicHeader)
          → Ends 16 m.reader o
          → Comes bs (
              on_success read
                (of_attempt read (with_dynamic m o) w)
                λ m4 w4. returned (success, m4) w4)
      go (done h r) a =
          body_Comes m h r (Reader.align 8 r) w bs q v a
            (align-Within r (IsAhead-IsValid m.reader r v a))
      go (stopped out_of_bounds) h = (m.reader, pending w, q, h)
      go (stopped bad_optional_access) h = h
      go (stopped out_of_fuel) h = h

  -- Behind the fixed header.
  sized_Comes :
      (m : MessagePrivate) (w : W) (bs : List ℕ)
      → m.fixed_header.valid ≡ true
      → m.dynamic_header.valid ≡ false
      → m.reader.pos ≡ 16
      → IsUint32 m.fixed_header.body_len
      → 16 ≤ length m.reader.bytes
      → length m.reader.bytes ≤ 2 ^ 34
      → All IsByte bs
      → m.reader.bytes ++ pending w ≡ bs
      → Comes bs (
          on_success read (ensure_data read (total_size m.fixed_header) m w) λ m3 w3.
            on_success read
              (of_attempt read (parse_dynamic m3) w3)
              λ m4 w4. returned (success, m4) w4)
  unfolding fail
  sized_Comes m w bs f d p u l h a q =
      go (ensure_data read (total_size m.fixed_header) m w)
        (ensure_data-Fetches read stream (total_size m.fixed_header) m w)
    where
      room :
          (m' : MessagePrivate) (w' : W)
          → Kept read stream (total_size m.fixed_header) m w m' w'
          → length m'.reader.bytes ≤ 2 ^ 34
      room m' w' k = omega (arith, k.bounded)

      valid_after :
          (m' : MessagePrivate) (w' : W)
          → Kept read stream (total_size m.fixed_header) m w m' w'
          → m'.reader.pos ≡ 16
          → IsValid m'.reader
      valid_after m' w' k e = record {
        placed = record { inside = omega (arith, k.grown); small = omega (arith, room m' w' k) };
        octets = All-left IsByte m'.reader.bytes (pending w') (rw (← k.stream_kept, q) a);
      }

      go :
          (o : Io W (ReadFdRes × MessagePrivate))
          → Fetches read stream (total_size m.fixed_header) m w o
          → Comes bs (
              on_success read o λ m3 w3.
                on_success read
                  (of_attempt read (parse_dynamic m3) w3)
                  λ m4 w4. returned (success, m4) w4)
      go (returned (success, m') w') (k, n) =
          parsed_Comes m' w' bs (ap (λ x. x.dynamic_header.valid) k.rest ∙ d)
            (ap (λ x. x.reader.pos) k.rest ∙ p)
            (valid_after m' w' k (ap (λ x. x.reader.pos) k.rest ∙ p)) (sym k.stream_kept ∙ q)
      go (returned (failure, m') w') k = refl
      go (returned (would_block_res, m') w') (k, n, starved) = (
        begun (ap (λ x. x.fixed_header.valid) k.rest ∙ f)
            (ap (λ x. x.dynamic_header.valid) k.rest ∙ d) (ap (λ x. x.reader.pos) k.rest ∙ p)
            (rw (ap (λ x. x.fixed_header.body_len) k.rest) u) (omega (arith, k.grown))
            (room m' w' k),
        sym k.stream_kept ∙ q,
      )
      go (halted s) k = absurd k

  Receiving-Kept :
      (m m' : MessagePrivate) (w w' : W)
      → Kept read stream 16 m w m' w'
      → Receiving m
      → Receiving m'
  Receiving-Kept m m' w w' k (waiting f d p h) =
      waiting (ap (λ x. x.fixed_header.valid) k.rest ∙ f)
        (ap (λ x. x.dynamic_header.valid) k.rest ∙ d) (ap (λ x. x.reader.pos) k.rest ∙ p)
        (omega (arith, k.bounded))
  Receiving-Kept m m' w w' k (begun f d p u l h) =
      begun (ap (λ x. x.fixed_header.valid) k.rest ∙ f)
        (ap (λ x. x.dynamic_header.valid) k.rest ∙ d) (ap (λ x. x.reader.pos) k.rest ∙ p)
        (rw (ap (λ x. x.fixed_header.body_len) k.rest) u) (omega (arith, k.grown))
        (omega (arith, k.bounded))

  -- Behind the first call of `unsureHasData`.
  headed_Comes :
      (m : MessagePrivate) (w : W) (bs : List ℕ)
      → Receiving m
      → 16 ≤ length m.reader.bytes
      → All IsByte bs
      → m.reader.bytes ++ pending w ≡ bs
      → Comes bs (
          on_success read (of_attempt read (parse_fixed m) w) λ m2 w2.
            on_success read (ensure_data read (total_size m2.fixed_header) m2 w2) λ m3 w3.
              on_success read
                (of_attempt read (parse_dynamic m3) w3)
                λ m4 w4. returned (success, m4) w4)
  unfolding parse_fixed fail
  headed_Comes m w bs (begun f d p u l h) k a q = rw f (
      sized_Comes (record m { fixed_header = record (m.fixed_header) { valid = true } }) w bs refl d
        p u l h a q)
  headed_Comes m w bs (waiting f d p h) k a q =
      let v : IsValid m.reader = record {
        placed = record { inside = omega arith; small = omega arith };
        octets = All-left IsByte m.reader.bytes (pending w) (rw q a);
      } in
      let x = read_fixed-Fixed m.reader v p k in
      rw (f, x.result)
        (elim (Bool-cases x.header.valid) [
          | inl t ↦ rw t (
              sized_Comes (record m { fixed_header = x.header; reader = moved m.reader x.pos }) w bs
                t d (x.taken t) x.body k (omega arith) a q)
          | inr n ↦ rw n
        ])

  -- Whatever bytes a peer sends, in whatever pieces they arrive, `readFd` on a message that is being
  -- received returns and throws nothing: it gives a message whose reader is inside its buffer, or waits
  -- with the message still being received, or fails and drops the buffer; no byte of the stream is lost
  -- in the first two cases. The only other outcome is a read over the end of the buffer, and then in a
  -- front part of the stream, behind its first 16 bytes, stand one behind the other the code of a field,
  -- the signature of a string or of an object path, and a length of 2 ^ 32 - 1, from which `readString`
  -- does read over the end.
  pub read_fd-Comes :
      (m : MessagePrivate) (w : W)
      → Receiving m
      → All IsByte (m.reader.bytes ++ pending w)
      → Comes (m.reader.bytes ++ pending w) (read_fd read m w)
  unfolding read_fd fail
  read_fd-Comes m w r a = go (ensure_data read 16 m w) (ensure_data-Fetches read stream 16 m w)
    where
      go :
          (o : Io W (ReadFdRes × MessagePrivate))
          → Fetches read stream 16 m w o
          → Comes (m.reader.bytes ++ pending w) (
              on_success read o λ m1 w1.
                on_success read (of_attempt read (parse_fixed m1) w1) λ m2 w2.
                  on_success read (ensure_data read (total_size m2.fixed_header) m2 w2) λ m3 w3.
                    on_success read
                      (of_attempt read (parse_dynamic m3) w3)
                      λ m4 w4. returned (success, m4) w4)
      go (returned (success, m') w') (k, n) =
          headed_Comes m' w' _ (Receiving-Kept m m' w w' k r) n a (sym k.stream_kept)
      go (returned (failure, m') w') k = refl
      go (returned (would_block_res, m') w') (k, n, starved) =
          (Receiving-Kept m m' w w' k r, sym k.stream_kept)
      go (halted s) k = absurd k
