-- ===== src/Examples/Client/Messages.antt =====
-- `read_message` of examples/dbus/main.cpp, and the loop that waits for the reply.
use firmir.Base.{
  ap, ℕ, zero, suc, ◌+◌, ◌<◌, ◌≡◌, refl, sym, ◌∙◌, arith, true, false, ◌⊎◌, inl, inr, Bool-cases,
  List, [], ◌∷◌, ◌++◌, append_assoc, append-nil, length, length-append, All, length-replicate, ◌==◌,
  if◌then◌else◌,
}
use firmir.Dbus.Wire.{IsUint32, store, load, in_order, bswap32}
use firmir.Dbus.Message.Layout.{up, gap, word}
use firmir.Dbus.Message.Reader.Safety.{IsValid}
use firmir.Dbus.Message.Reader.Replay.{at, load-word}
use firmir.Dbus.Message.Header.{FixedHeader, error, signal}
use firmir.Dbus.Message.Header.Entries.{Entry, encode}
use firmir.Dbus.Message.Header.FixedRoundTrip.{fixed_bytes}
use firmir.Dbus.Message.Reader.{Reader}
use firmir.Examples.Reader.{Outcome, done}
use firmir.Examples.Message.{Message, parse}
use firmir.Examples.Message.Replay.{frame, IsFramed, framed, length-fixed_bytes}
use firmir.Examples.Message.Framed.{parse-frame}
use firmir.Examples.Client.{
  Reading, Run, of_outcome, header_word, known_order, header_padding, read_exact, read_parts,
  headed, waiting, read_message, answers, wait_reply,
}
use firmir.Examples.Client.Stream.{Stream, Takes, Takes-same, bind-Takes, read_exact-Takes}

-- A message as it is sent: its fixed header, the entries of its fields in any order, and its body.
pub record Packet : Type 0 where
  pub head : FixedHeader
  pub entries : List Entry
  pub body : List ℕ

abbrev pub bytes_of : Packet → List ℕ
bytes_of p = frame p.head p.entries p.body

abbrev pub message_of : Packet → Message
message_of p = framed p.head p.entries p.body

abbrev pub all_bytes : List Packet → List ℕ
all_bytes [] = []
all_bytes (p ∷ ps) = bytes_of p ++ all_bytes ps

pub record IsPacket (p : Packet) : Type 0 where
  pub framed : IsFramed p.head p.entries p.body
  pub valid : IsValid (at [] (bytes_of p) p.head.endian)

header_words :
    (h : FixedHeader)
    → (header_word 4 (fixed_bytes h) ≡ in_order bswap32 h.endian (load (word h.endian h.body_len)))
      × (header_word 12 (fixed_bytes h)
          ≡ in_order bswap32 h.endian (load (word h.endian h.fields_len)))
unfolding word store
header_words h = (refl, refl)

header_padding_lem : (n m : ℕ) → IsUint32 n → m ≡ 16 + n → length (gap 8 m) ≡ header_padding n
unfolding gap up
header_padding_lem n m h e = length-replicate {A = ℕ} _ 0 ∙ rw e (ground arith)

-- What the loop passes over.
abbrev pub IsPassed : Message → Type 0
IsPassed m = (answers m ≡ false) × ((m.type == error) ≡ false)

-- What ends it: the reply to the hello, or an error.
abbrev pub IsFinal : Message → Type 0
IsFinal m = (answers m ≡ true) ⊎ ((answers m ≡ false) × (m.type ≡ error))

module _ {W : Type 0} (read : W → ℕ → Reading × W) (stream : Stream read) where
  parsed-Takes :
      (o : Outcome Message) (m : Message) (r : Reader) (rest : List ℕ) (w : W)
      → o ≡ done m r
      → Takes read stream (of_outcome o) m [] rest w
  parsed-Takes o m r rest w e p = (w, (rw e refl, p))

  read_parts-Takes :
      (header fields pad body rest : List ℕ) (m : Message) (r : Reader) (w : W)
      → length fields ≡ header_word 12 header
      → length pad ≡ header_padding (header_word 12 header)
      → length body ≡ header_word 4 header
      → parse (header ++ (fields ++ (pad ++ body))) ≡ done m r
      → Takes read stream (read_parts read header) m (fields ++ (pad ++ (body ++ []))) rest w
  unfolding read_parts
  read_parts-Takes header fields pad body rest m r w h1 h2 h3 e =
      bind-Takes read stream (read_exact read _) _ fields m fields (pad ++ (body ++ [])) rest w
        (read_exact-Takes read stream fields _ _ w h1)
        (λ w1.
          bind-Takes read stream (read_exact read _) _ pad m pad (body ++ []) rest w1
            (read_exact-Takes read stream pad _ _ w1 h2)
            (λ w2.
              bind-Takes read stream (read_exact read _) _ body m body [] rest w2
                (read_exact-Takes read stream body _ _ w2 h3) (λ w3. parsed-Takes _ m r rest w3 e)))

  -- Behind a header of a known byte order.
  ordered-Takes :
      (header bs rest : List ℕ) (m : Message) (w : W)
      → known_order header ≡ true
      → Takes read stream (read_parts read header) m bs rest w
      → Takes read stream (headed read header) m bs rest w
  ordered-Takes header bs rest m w h t p = rw h (t p)

  -- Over a stream that begins with a message, in either byte order, with its fields in any order and any
  -- number of bytes to a call of `read`, `read_message` gives that message, throws nothing, and leaves
  -- the stream behind the message.
  pub read_message-Takes :
      (p : Packet) (rest : List ℕ) (w : W)
      → IsPacket p
      → Takes read stream (read_message read) (message_of p) (bytes_of p) rest w
  unfolding read_message
  read_message-Takes p rest w k =
      let h = p.head in
      let f = k.framed in
      let head = fixed_bytes h in
      let enc = encode h.endian 16 p.entries in
      let pad = gap 8 (length (head ++ enc)) in
      let words = header_words h in
      let fields_len : header_word 12 head ≡ length enc =
        words.1
        ∙ load-word h.endian h.fields_len (rw (f.fields_len) (f.fields_fit))
        ∙ f.fields_len in
      let body_len : header_word 4 head ≡ length p.body =
        words.0 ∙ load-word h.endian h.body_len (rw (f.body_len) (f.body_fits)) ∙ f.body_len in
      let padded : length pad ≡ header_padding (header_word 12 head) =
        header_padding_lem (length enc) _ f.fields_fit
          (length-append head enc ∙ ap (λ (n : ℕ). n + length enc) (length-fixed_bytes h))
        ∙ ap (λ (n : ℕ). header_padding n) (sym fields_len) in
      let known : known_order head ≡ true = elim f.order [
        | inl e ↦ rw e refl
        | inr e ↦ rw e refl
      ] in
      let whole : bytes_of p ++ [] ≡ head ++ (enc ++ (pad ++ p.body)) =
        simp (append_assoc, append-nil) in
      let shape : bytes_of p ≡ head ++ (enc ++ (pad ++ (p.body ++ []))) =
        simp (append_assoc, append-nil) in
      let parsed = rw whole at (parse-frame h p.entries p.body [] f (rw append-nil k.valid)) in
      Takes-same read stream (read_message read) (message_of p) _ _ rest w shape (
        bind-Takes read stream (read_exact read 16) (headed read) head (message_of p) head _ rest w
          (read_exact-Takes read stream head _ 16 w (length-fixed_bytes h))
          (λ w1. ordered-Takes head _ rest (message_of p) w1 known (
            read_parts-Takes head enc pad p.body rest (message_of p) _ w1 (sym fields_len) padded
              (sym body_len) parsed)))

  got_Takes :
      (again : W → Run W Message) (m : Message) (rest : List ℕ) (w : W)
      → IsFinal m
      → Takes read stream (waiting read again m) m [] rest w
  got_Takes again m rest w (inl a) p = (w, (rw a refl, p))
  got_Takes again m rest w (inr (a, e)) p = (w, (rw (a, e) refl, p))

  passed_Takes :
      (again : W → Run W Message) (m n : Message) (bs rest : List ℕ) (w : W)
      → IsPassed m
      → Takes read stream again n bs rest w
      → Takes read stream (waiting read again m) n bs rest w
  passed_Takes again m n bs rest w (a, e) t p = elim (Bool-cases (m.type == signal)) [
    | inl s ↦ rw (a, if◌then◌else◌, s) (t p)
    | inr s ↦ rw (a, if◌then◌else◌, s, if◌then◌else◌, e) (t p)
  ]

  -- Over a stream of messages the loop of the client passes over those that are neither its reply nor
  -- an error, however many they are, and returns the first that is, with the stream behind it; one round
  -- for each message is enough.
  pub wait_reply-Takes :
      (fuel : ℕ) (skipped : List Packet) (reply : Packet) (rest : List ℕ) (w : W)
      → length skipped < fuel
      → All (λ p. IsPacket p × IsPassed (message_of p)) skipped
      → IsPacket reply
      → IsFinal (message_of reply)
      → Takes read stream
          (wait_reply read fuel)
          (message_of reply)
          (all_bytes skipped ++ bytes_of reply)
          rest
          w
  unfolding wait_reply
  wait_reply-Takes zero skipped reply rest w l a k f = absurd (omega arith)
  wait_reply-Takes (suc fuel) [] reply rest w l a k f =
      Takes-same read stream (wait_reply read (suc fuel)) (message_of reply) _ _ rest w
        (sym (append-nil (bytes_of reply)))
        (bind-Takes read stream (read_message read) (waiting read (wait_reply read fuel))
          (message_of reply) (message_of reply) (bytes_of reply) [] rest w
          (read_message-Takes reply _ w k)
          (λ w'. got_Takes (wait_reply read fuel) (message_of reply) rest w' f))
  wait_reply-Takes (suc fuel) (p ∷ ps) reply rest w l ((pk, pp), a) k f =
      Takes-same read stream (wait_reply read (suc fuel)) (message_of reply) _ _ rest w
        (append_assoc (bytes_of p) (all_bytes ps) (bytes_of reply))
        (bind-Takes read stream (read_message read) (waiting read (wait_reply read fuel))
          (message_of p) (message_of reply) (bytes_of p) _ rest w (read_message-Takes p _ w pk)
          (λ w'.
            passed_Takes (wait_reply read fuel) (message_of p) (message_of reply) _ rest w' pp
              (wait_reply-Takes fuel ps reply rest w' (omega arith) a k f)))
