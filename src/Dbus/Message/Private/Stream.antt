-- ===== src/Dbus/Message/Private/Stream.antt =====
-- dbus/message.cpp: `readExact` and `unsureHasData` over a descriptor that delivers a stream of bytes.
use firmir.Base.{
  ap, ℕ, zero, suc, ◌+◌, ◌-◌, ◌≤◌, ◌<◌, ◌≡◌, refl, sym, ◌∙◌, arith, true, false, Option, none, some,
  List, [], ◌++◌, append_assoc, length, length-append, ltb, leb, ltb→lt, le→ltb_false, ltb_false→le,
  leb→le, if◌then◌else◌, ◌⊎◌, Bool-cases, inl, inr,
}
use firmir.Dbus.Message.Private.{
  MessagePrivate, ReadResult, got, nothing, Errno, would_block, ReadFdRes, success, failure,
  would_block_res, Io, returned, halted, round, read_more, read_exact, fetched, ensure_data,
}

-- What the code relies on of `read`: `pending` is what the stream still has, in order. A call that
-- returns bytes returns one at least and no more than it was asked for.
pub record Stream {W : Type 0} (read : W → ℕ → ReadResult × W) : Type 0 where
  pub pending : W → List ℕ
  pub delivers :
      (w : W) (n : ℕ) (bs : List ℕ) (w' : W)
      → 0 < n
      → read w n ≡ (got bs, w')
      → (pending w ≡ bs ++ pending w') × (0 < length bs) × (length bs ≤ n)
  pub keeps :
      (w : W) (n : ℕ) (e : Errno) (w' : W) → read w n ≡ (nothing e, w') → pending w' ≡ pending w

-- The reader's buffer, exchanged.
abbrev pub set_bytes : MessagePrivate → List ℕ → MessagePrivate
set_bytes m bs = record m { reader = record (m.reader) { bytes = bs } }

module _ {W : Type 0} (read : W → ℕ → ReadResult × W) (stream : Stream read) where
  open stream use {pending, delivers, keeps}

  -- The latest call, which failed with an error other than that there is no data yet.
  pub record Broken (after : W) : Type 0 where
    pub before : W
    pub wanted : ℕ
    pub errno : Errno
    pub call : read before wanted ≡ (nothing errno, after)
    pub hard : would_block errno ≡ false

  -- A call for some bytes, the latest one, that had none: with the error that there is no data yet.
  pub record Starved (after : W) : Type 0 where
    pub before : W
    pub wanted : ℕ
    pub errno : Errno
    pub some_wanted : 0 < wanted
    pub call : read before wanted ≡ (nothing errno, after)
    pub soft : would_block errno ≡ true

  -- The bytes got so far and the stream behind them are what they were, and no more than `n` are got;
  -- fewer only where the latest call had none.
  abbrev pub Reads : ℕ → List ℕ → W → Io W (Option (List ℕ)) → Type 0
  Reads n acc w (returned (some bs) w') =
      (acc ++ pending w ≡ bs ++ pending w') × (length bs ≤ n) × ((length bs ≡ n) ⊎ Starved w')
  Reads n acc w (returned none w') = Broken w'
  Reads n acc w (halted s) = ⊥

  Reads-trans :
      (n : ℕ) (acc acc' : List ℕ) (w w' : W) (io : Io W (Option (List ℕ)))
      → acc ++ pending w ≡ acc' ++ pending w'
      → Reads n acc' w' io
      → Reads n acc w io
  Reads-trans n acc acc' w w' (returned (some bs) w'') e r = (e ∙ r.0, r.1, r.2)
  Reads-trans n acc acc' w w' (returned none w'') e r = r
  Reads-trans n acc acc' w w' (halted s) e r = r

  stops :
      (n : ℕ) (acc : List ℕ) (w w' : W) (e : Errno)
      → length acc < n
      → read w (n - length acc) ≡ (nothing e, w')
      → Reads n acc w (returned (if would_block e then some acc else none) w')
  stops n acc w w' e h q = elim (Bool-cases (would_block e)) [
    | inl t ↦ rw t (
      ap (◌++◌ acc) (sym (keeps w _ e w' q)),
      omega arith,
      inr (record {
        before = w;
        wanted = n - length acc;
        errno = e;
        some_wanted = omega arith;
        call = q;
        soft = t;
      }),
    )
    | inr f ↦ rw f (record { before = w; wanted = n - length acc; errno = e; call = q; hard = f })
  ]

  pub read_more-Reads :
      (fuel n : ℕ) (acc : List ℕ) (w : W)
      → length acc ≤ n
      → n ≤ length acc + fuel
      → Reads n acc w (read_more read fuel n acc w)
  unfolding read_more
  read_more-Reads zero n acc w h f =
      rw (le→ltb_false (length acc) n (omega arith)) (refl, h, inl (omega arith))
  read_more-Reads (suc fuel) n acc w h f = elim (Bool-cases (ltb (length acc) n)) [
    | inl t ↦ rw t (go (read_more-Reads fuel n) (read w (n - length acc)) refl (ltb→lt _ _ t))
    | inr full ↦ rw full (refl, h, inl (omega (arith, ltb_false→le _ _ full)))
  ]
    where
      go :
          ((acc' : List ℕ) (w' : W)
            → length acc' ≤ n
            → n ≤ length acc' + fuel
            → Reads n acc' w' (read_more read fuel n acc' w'))
          → (r : ReadResult × W) → read w (n - length acc) ≡ r
          → length acc < n
          → Reads n acc w (round read acc (read_more read fuel n) r)
      go ih (got bs, w') q lt =
          let d = delivers w (n - length acc) bs w' (omega arith) q in
          let size = length-append acc bs in
          Reads-trans n acc (acc ++ bs) w w' _
            (ap (◌++◌ acc) (d.0) ∙ sym (append_assoc acc bs (pending w')))
            (ih (acc ++ bs) w' (omega (arith, d.2)) (omega (arith, d.1)))
      go ih (nothing e, w') q lt = stops n acc w w' e lt q

  -- Nothing of the stream is lost, at most the bytes up to `n` are taken, and a success has them.
  pub record Kept (n : ℕ) (m : MessagePrivate) (w : W) (m' : MessagePrivate) (w' : W) : Type 0 where
    pub rest : m' ≡ set_bytes m (m'.reader.bytes)
    pub stream_kept : m.reader.bytes ++ pending w ≡ m'.reader.bytes ++ pending w'
    pub grown : length m.reader.bytes ≤ length m'.reader.bytes
    pub bounded : length m'.reader.bytes ≤ length m.reader.bytes + (n - length m.reader.bytes)

  abbrev pub Fetches : ℕ → MessagePrivate → W → Io W (ReadFdRes × MessagePrivate) → Type 0
  Fetches n m w (returned (success, m') w') = Kept n m w m' w' × (n ≤ length m'.reader.bytes)
  Fetches n m w (returned (would_block_res, m') w') =
      Kept n m w m' w' × (length m'.reader.bytes < n) × Starved w'
  Fetches n m w (returned (failure, m') w') = Broken w'
  Fetches n m w (halted s) = ⊥

  fetched-Fetches :
      (n : ℕ) (m : MessagePrivate) (w : W) (io : Io W (Option (List ℕ)))
      → Reads (n - length m.reader.bytes) [] w io
      → Fetches n m w (fetched read n m io)
  fetched-Fetches n m w (halted s) r = r
  fetched-Fetches n m w (returned none w') r = r
  fetched-Fetches n m w (returned (some bs) w') r =
      let old = m.reader.bytes in
      elim (Bool-cases (ltb (length (old ++ bs)) n)) [
        | inl t ↦ rw t (kept, ltb→lt _ _ t, starved (ltb→lt _ _ t) r.2)
        | inr f ↦ rw f (kept, ltb_false→le _ _ f)
      ]
    where
      starved :
          length (m.reader.bytes ++ bs) < n
          → (length bs ≡ n - length m.reader.bytes) ⊎ Starved w'
          → Starved w'
      starved lt (inl e) = absurd (omega (arith, length-append (m.reader.bytes) bs))
      starved lt (inr s) = s

      kept : Kept n m w (set_bytes m (m.reader.bytes ++ bs)) w'
      kept = record {
        rest = refl;
        stream_kept =
            ap (◌++◌ (m.reader.bytes)) (r.0) ∙ sym (append_assoc (m.reader.bytes) bs (pending w'));
        grown = omega (arith, length-append (m.reader.bytes) bs);
        bounded = omega (arith, length-append (m.reader.bytes) bs, r.1);
      }

  pub ensure_data-Fetches :
      (n : ℕ) (m : MessagePrivate) (w : W) → Fetches n m w (ensure_data read n m w)
  unfolding ensure_data read_exact
  ensure_data-Fetches n m w = elim (Bool-cases (leb n (length m.reader.bytes))) [
    | inl t ↦ rw t (
      record { rest = refl; stream_kept = refl; grown = omega arith; bounded = omega arith },
      leb→le _ _ t,
    )
    | inr f ↦
        let k = n - length m.reader.bytes in
        rw f (fetched-Fetches n m w _ (read_more-Reads k k [] w (omega arith) (omega arith)))
  ]
