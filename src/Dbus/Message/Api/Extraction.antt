-- ===== src/Dbus/Message/Api/Extraction.antt =====
-- `operator>>` of dbus/message.cpp on a body of strings.
use firmir.Base.{
  ℕ, zero, suc, ◌+◌, ◌<◌, ◌≡◌, refl, sym, ap, ◌∙◌, arith, false, none, List, [], ◌∷◌, ◌++◌,
  append-nil, append_assoc, length, length-append, All, leb, lt→leb_false, if◌then◌else◌,
}
use firmir.Dbus.Wire.{Endianness, bswap32}
use firmir.Dbus.Message.Layout.{up, gap, text}
use firmir.Dbus.Message.Reader.{Reader, Stop, done, ◌>>=◌, read_uint32, get_uint32, read_string}
use firmir.Dbus.Message.Reader.Safety.{IsPlaced, read_aligned_lem}
use firmir.Dbus.Message.Reader.Replay.{at, IsSmall, read_string-at}
use firmir.Dbus.Message.Private.{MessagePrivate}
use firmir.Dbus.Message.Api.{Extracted, extracted, broken_off, extract}

-- The strings `ss` as a body has them from offset `p` on.
unfoldable pub laid : Endianness → ℕ → List (List ℕ) → List ℕ
laid e p [] = []
laid e p (s ∷ ss) = gap 4 p ++ (text e s ++ laid e (p + length (gap 4 p ++ text e s)) ss)

-- A client's `message >> s1 >> s2 >> …` with empty items.
pub data Items : Type 0 where
  items : List (List ℕ) → MessagePrivate → Items
  no_items : Stop → Items

abbrev behind : List ℕ → Items → Items
behind s (items ss m) = items (s ∷ ss) m
behind s (no_items e) = no_items e

abbrev go_on : Extracted → (MessagePrivate → Items) → Items
go_on (extracted s m) next = behind s (next m)
go_on (broken_off e) next = no_items e

unfoldable pub extract_each : ℕ → MessagePrivate → Items
extract_each zero m = items [] m
extract_each (suc n) m = go_on (extract [] m) (extract_each n)

abbrev pub with_reader : MessagePrivate → Reader → MessagePrivate
with_reader m r = record m { reader = r }

extract-at :
    (front s back : List ℕ) (e : ℕ) (item : List ℕ) (m : MessagePrivate)
    → length s < 0xFFFFFFFF
    → IsSmall front (gap 4 (length front) ++ (text e s ++ back))
    → extract item (with_reader m (at front (gap 4 (length front) ++ (text e s ++ back)) e))
      ≡ extracted s (with_reader m (at (front ++ (gap 4 (length front) ++ text e s)) back e))
unfolding extract
extract-at front s back e item m h small = rw (read_string-at front s back e h small)

extract_each-at :
    (ss : List (List ℕ)) (front : List ℕ) (e p : ℕ) (m : MessagePrivate)
    → p ≡ length front
    → All (λ s. length s < 0xFFFFFFFF) ss
    → IsSmall front (laid e p ss)
    → extract_each (length ss) (with_reader m (at front (laid e p ss) e))
      ≡ items ss (with_reader m (at (front ++ laid e p ss) [] e))
unfolding extract_each laid
extract_each-at [] front e p m q h small =
    ap (λ (bs : List ℕ). items [] (with_reader m (at bs [] e))) (sym (append-nil front))
extract_each-at (s ∷ ss) front e p m q (h, hs) small =
    let b = gap 4 (length front) ++ text e s in
    let rest = laid e (length front + length b) ss in
    let here : IsSmall front (gap 4 (length front) ++ (text e s ++ rest)) = rw q at small in
    let same : (front ++ b) ++ rest ≡ front ++ (gap 4 (length front) ++ (text e s ++ rest)) =
      simp append_assoc in
    let onward =
      extract_each-at ss (front ++ b) e (length front + length b) m (sym (length-append front b)) hs
        (rw same here) in
    rw (q, extract-at front s rest e [] m h here)
      (ap (behind s) onward
        ∙ ap (λ (bs : List ℕ). items (s ∷ ss) (with_reader m (at bs [] e))) same)

-- From a body that holds strings, `>>` takes them one by one in their order; the message stays
-- valid, and the reader ends at the end of the body. The strings are shorter than 2 ^ 32 - 1 bytes
-- and the buffer than 2 ^ 63.
pub extract_each_lem :
    (ss : List (List ℕ)) (front : List ℕ) (e : ℕ) (m : MessagePrivate)
    → All (λ s. length s < 0xFFFFFFFF) ss
    → IsSmall front (laid e (length front) ss)
    → extract_each (length ss) (with_reader m (at front (laid e (length front) ss) e))
      ≡ items ss (with_reader m (at (front ++ laid e (length front) ss) [] e))
extract_each_lem ss front e m h small = extract_each-at ss front e (length front) m refl h small

-- Where the buffer has no room for the length of a string.
abbrev pub stuck : Reader → Reader
stuck r = record r { pos = if leb (up 4 r.pos) (length r.bytes) then up 4 r.pos else r.pos }

no_length :
    (r : Reader)
    → IsPlaced r
    → length r.bytes < up 4 r.pos + 4
    → read_uint32 r ≡ done none (stuck r)
unfolding read_uint32 get_uint32
no_length r placed h = rw (
  read_aligned_lem 4 bswap32 r placed (omega arith) (omega arith),
  lt→leb_false (up 4 r.pos + 4) (length r.bytes) h,
)

-- Where the buffer ends before the length of a string, `>>` leaves the item as it was, and the
-- message is not valid from then on; the reader stays within the padding of that length.
pub extract_end :
    (item : List ℕ) (m : MessagePrivate)
    → IsPlaced m.reader
    → length m.reader.bytes < up 4 m.reader.pos + 4
    → extract item m ≡ extracted item (record m { reader = stuck m.reader; valid = false })
unfolding extract read_string
extract_end item m placed h = rw (no_length m.reader placed h, ◌>>=◌)
