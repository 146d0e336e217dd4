-- ===== src/Tests/Codec.antt =====
-- Headers, strings and numbers on the wire.
use firmir.Base.{
  ℕ, ◌+◌, ◌^◌, ◌<◌, ◌≡◌, refl, sym, ap, ◌∙◌, arith, true, false, Option, some, List, [], ◌∷◌, ◌++◌,
  codes, length, replicate,
}
use firmir.Dbus.Wire.{little, big, store, load, in_order, bswap32}
use firmir.Dbus.Message.Layout.{up, gap, word, text}
use firmir.Dbus.Message.Header.{
  FixedHeader, default_fixed, serialize_fixed, read_fixed, serialize_dynamic, read_dynamic,
  write_string_field, write_uint32_field, write_signature_field,
}
use firmir.Dbus.Message.Header.Entries.{encode, entries}
use firmir.Dbus.Message.Header.Appends.{serialize_dynamic_lem}
use firmir.Dbus.Message.Header.RoundTrip.{fresh, read-serialize_dynamic}
use firmir.Dbus.Message.Header.FixedRoundTrip.{as_read, read-serialize_fixed}
use firmir.Dbus.Message.Writer
use firmir.Dbus.Message.Writer.{Writer, append}
use firmir.Dbus.Message.Reader.{
  Reader, Outcome, Stop, out_of_bounds, stopped, done, read_string, read_signature, read_uint32,
  get_uint32, read_aligned, get_uint, check, window, advance,
}
use firmir.Dbus.Message.Reader
use firmir.Dbus.Message.Reader.Safety.{IsValid, Within}
use firmir.Dbus.Message.Reader.Strings.{NoWrap, read_string-Within, read_string_overrun}
use firmir.Dbus.Message.Reader.Replay.{at}
use firmir.Dbus.Message.Private.{default_message}
use firmir.Dbus.Message.Api.{extract, extracted}
use firmir.Dbus.Message.Api.Extraction.{
  laid, extract_each, items, with_reader, extract_each_lem, extract_end, stuck,
}
use firmir.Tests.Receive.{ping_header, ping_header-IsWritable}

bswap32_run : bswap32 0x01020304 ≡ 0x04030201
unfolding bswap32
bswap32_run = refl

-- A big-endian header behind sixteen bytes.
abbrev front : List ℕ
front = replicate 16 0

header_small :
    length (front ++ ((serialize_dynamic ping_header (fresh big)).bytes ++ codes "hi")) < 2 ^ 63
unfolding serialize_dynamic write_string_field write_uint32_field write_signature_field
    Writer.write_uint8 Writer.write_uint32 Writer.write_string Writer.write_signature Writer.align
    Writer.write_uint store in_order bswap32
header_small = omega arith

read-serialize_dynamic_example :
    read_dynamic
      (length front + length (serialize_dynamic ping_header (fresh big)).bytes)
      (at front ((serialize_dynamic ping_header (fresh big)).bytes ++ codes "hi") big)
    ≡ done
        (record ping_header { valid = true })
        (at (front ++ (serialize_dynamic ping_header (fresh big)).bytes) (codes "hi") big)
read-serialize_dynamic_example =
    read-serialize_dynamic ping_header big front (codes "hi") ping_header-IsWritable refl
      header_small

serialize_dynamic_lem_example :
    serialize_dynamic ping_header (fresh little)
    ≡ append (fresh little) (encode little 0 (entries ping_header))
serialize_dynamic_lem_example =
    serialize_dynamic_lem ping_header (fresh little) ping_header-IsWritable

abbrev big_header : FixedHeader
big_header = record default_fixed { endian = big; body_len = 1; serial = 2; fields_len = 3 }

fixed_small : length ((serialize_fixed big_header (fresh little)).bytes ++ []) < 2 ^ 63
unfolding serialize_fixed Writer.write_uint8 Writer.write_uint32 Writer.write_string
    Writer.write_signature Writer.align Writer.write_uint store in_order bswap32
fixed_small = omega arith

-- The big-endian header comes back with its numbers swapped.
read-serialize_fixed_example :
    read_fixed (at [] ((serialize_fixed big_header (fresh little)).bytes ++ []) little)
    ≡ done (as_read big_header) (at (serialize_fixed big_header (fresh little)).bytes [] little)
read-serialize_fixed_example =
    read-serialize_fixed big_header little [] refl (omega arith) (omega arith) (omega arith)
      fixed_small

abbrev over : Reader
over = record { bytes = 255 ∷ 255 ∷ 255 ∷ 255 ∷ []; pos = 0; endian = little }

over-IsValid : IsValid over
over-IsValid = record {
  placed = record { inside = omega arith; small = omega arith };
  octets = (omega arith, (omega arith, (omega arith, (omega arith, tt))));
}

over_read : read_uint32 over ≡ done (some 0xFFFFFFFF) (record over { pos = 4 })
unfolding read_uint32 get_uint32 read_aligned Reader.align check window advance get_uint load
    in_order
over_read = refl

read_string_overrun_example : read_string over ≡ stopped out_of_bounds
read_string_overrun_example =
    read_string_overrun over (record over { pos = 4 }) over-IsValid over_read (omega arith)

abbrev short : Reader
short = record { bytes = 2 ∷ 0 ∷ 0 ∷ 0 ∷ b'h' ∷ b'i' ∷ 0 ∷ []; pos = 0; endian = little }

short-IsValid : IsValid short
short-IsValid = record {
  placed = record { inside = omega arith; small = omega arith };
  octets = (
    omega arith,
    (omega arith, (omega arith, (omega arith, (omega arith, (omega arith, (omega arith, tt)))))),
  );
}

short_read : read_uint32 short ≡ done (some 2) (record short { pos = 4 })
unfolding read_uint32 get_uint32 read_aligned Reader.align check window advance get_uint load
    in_order
short_read = refl

abbrev result_of : Outcome (Option ℕ) → ℕ
result_of (done (some n) r) = n
result_of _ = 0

short-NoWrap : NoWrap short
short-NoWrap r' e = omega (arith, ap result_of (sym short_read ∙ e))

read_string-Within_example : Within short (read_string short)
read_string-Within_example = read_string-Within short short-IsValid short-NoWrap

abbrev names : List (List ℕ)
names = codes ":1.42" ∷ codes "org.example" ∷ []

names_small : length (front ++ laid little 16 names) < 2 ^ 63
unfolding laid text word gap up store in_order
names_small = omega arith

extract_each_lem_example :
    extract_each 2 (with_reader default_message (at front (laid little 16 names) little))
    ≡ items names (with_reader default_message (at (front ++ laid little 16 names) [] little))
extract_each_lem_example =
    extract_each_lem names front little default_message (omega arith, (omega arith, tt)) names_small

empty_short : 0 < up 4 0 + 4
unfolding up
empty_short = omega arith

extract_end_example :
    extract (codes "old") default_message
    ≡ extracted
        (codes "old")
        (record default_message { reader = stuck default_message.reader; valid = false })
extract_end_example =
    extract_end (codes "old") default_message (record { inside = omega arith; small = omega arith })
      empty_short
