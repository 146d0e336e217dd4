-- ===== src/Dbus/Message/Private.antt =====
-- `MessagePrivate` of dbus/message.cpp: serialising a message and reading one from a descriptor.
pub mod Sent
pub mod Stream
pub mod Receive
pub mod Safety
use firmir.Base.{
  ℕ, zero, suc, ◌+◌, ◌-◌, ◌%◌, ◌^◌, ◌≤◌, Bool, true, false, Option, none, some, List, [], ◌∷◌, ◌++◌,
  length, replicate, ltb, leb, ◌==◌, if◌then◌else◌,
}
use firmir.Dbus.Wire.{little}
use firmir.Dbus.Message.Reader
use firmir.Dbus.Message.Reader.{Reader, Outcome, Stop, out_of_fuel, done, stopped}
use firmir.Dbus.Message.Writer.{Writer}
use firmir.Dbus.Message.Header.{
  FixedHeader, DynamicHeader, default_fixed, default_dynamic, read_fixed, read_dynamic,
  serialize_fixed, serialize_dynamic,
}

pub record MessagePrivate : Type 0 where
  pub fixed_header : FixedHeader
  pub dynamic_header : DynamicHeader
  pub reader : Reader
  pub writer : Writer
  pub valid : Bool

abbrev pub default_reader : Reader
default_reader = record { bytes = []; pos = 0; endian = little }

abbrev pub default_writer : Writer
default_writer = record { bytes = []; endian = little }

abbrev pub default_message : MessagePrivate
default_message = record {
  fixed_header = default_fixed;
  dynamic_header = default_dynamic;
  reader = default_reader;
  writer = default_writer;
  valid = true;
}

-- The bytes up to the next multiple of eight.
abbrev pub padding : ℕ → ℕ
padding n = (8 - n % 8) % 8

-- The two lengths are stored in fields of type `uint32_t`.
abbrev pub with_lengths : MessagePrivate → List ℕ → FixedHeader
with_lengths m fields = record m.fixed_header {
  body_len = length m.writer.bytes % 2 ^ 32;
  fields_len = length fields % 2 ^ 32;
}

-- `serialize` returns the bytes and leaves the lengths in the fixed header.
unfoldable pub serialize : MessagePrivate → List ℕ × MessagePrivate
serialize m =
    let fields = (serialize_dynamic m.dynamic_header default_writer).bytes in
    let h = with_lengths m fields in
    let fixed = (serialize_fixed h default_writer).bytes in
    (
      fixed ++ (fields ++ (replicate (padding (length fields)) 0 ++ m.writer.bytes)),
      record m { fixed_header = h },
    )

-- `errno` as it stands behind a call of `read` that returned no byte. At the end of the stream the
-- call leaves it as it was.
pub data Errno : Type 0 where
  eagain ewouldblock other_errno : Errno

-- What a call `read(fd, buffer, n)` returns: bytes, or none.
pub data ReadResult : Type 0 where
  got : List ℕ → ReadResult
  nothing : Errno → ReadResult

unfoldable pub would_block : Errno → Bool
would_block eagain = true
would_block ewouldblock = true
would_block other_errno = false

pub data ReadFdRes : Type 0 where
  success failure would_block_res : ReadFdRes

-- A run of code that calls the kernel, whose state is a `W`.
pub data Io (W : Type 0) (A : Type 0) : Type 0 where
  returned : A → W → Io W A
  halted : Stop → Io W A

-- What a part of `readFd` comes to, with the message behind it.
pub data Attempt : Type 0 where
  attempt : ReadFdRes → MessagePrivate → Attempt
  broke : Stop → Attempt

-- `reader = Reader()` on a failure.
unfoldable pub fail : ReadFdRes → MessagePrivate → ReadFdRes × MessagePrivate
fail failure m = (failure, record m { reader = default_reader })
fail res m = (res, m)

abbrev pub verdict : Bool → ReadFdRes
verdict ok = if ok then success else failure

-- `fixedHeader`, read unless it is valid already.
abbrev pub with_fixed : MessagePrivate → Outcome FixedHeader → Attempt
with_fixed m (done h r) = attempt (verdict h.valid) (record m { fixed_header = h; reader = r })
with_fixed m (stopped s) = broke s

unfoldable pub parse_fixed : MessagePrivate → Attempt
parse_fixed m =
    if m.fixed_header.valid then attempt success m else with_fixed m (read_fixed m.reader)

-- `16 + fixedHeader.fieldsLen` is a sum of type `uint32_t`.
abbrev pub header_total : FixedHeader → ℕ
header_total h = (16 + h.fields_len) % 2 ^ 32

-- These sums have type `size_t` and stay far below its range.
abbrev pub total_size : FixedHeader → ℕ
total_size h = header_total h + padding (header_total h) + h.body_len

-- `dynamicHeader`, read unless it is valid already; then the reader goes on to the body.
abbrev pub at_body : MessagePrivate → DynamicHeader → Outcome Bool → Attempt
at_body m h (done _ r) = attempt (verdict h.valid) (record m { dynamic_header = h; reader = r })
at_body m h (stopped s) = broke s

abbrev pub with_dynamic : MessagePrivate → Outcome DynamicHeader → Attempt
with_dynamic m (done h r) = at_body m h (Reader.align 8 r)
with_dynamic m (stopped s) = broke s

unfoldable pub parse_dynamic : MessagePrivate → Attempt
parse_dynamic m =
    if m.dynamic_header.valid
    then attempt success m
    else with_dynamic m (read_dynamic (header_total m.fixed_header) m.reader)

-- The descriptor and the kernel behind it are not part of the source: the call is a parameter.
module _ {W : Type 0} (read : W → ℕ → ReadResult × W) where
  -- One round of the loop of `readExact`, behind `acc`; `again` is the rest of the loop. The empty
  -- optional is `none`.
  abbrev pub round :
      List ℕ → (List ℕ → W → Io W (Option (List ℕ))) → ReadResult × W → Io W (Option (List ℕ))
  round acc again (got bs, w) = again (acc ++ bs) w
  round acc again (nothing e, w) = returned (if would_block e then some acc else none) w

  -- Each call that returns bytes returns one at least, so `n` rounds are enough.
  unfoldable pub read_more : ℕ → ℕ → List ℕ → W → Io W (Option (List ℕ))
  read_more zero n acc w = if ltb (length acc) n then halted out_of_fuel else returned (some acc) w
  read_more (suc fuel) n acc w =
      let more = round acc (read_more fuel n) (read w (n - length acc)) in
      if ltb (length acc) n then more else returned (some acc) w

  unfoldable pub read_exact : ℕ → W → Io W (Option (List ℕ))
  read_exact n w = read_more n n [] w

  -- The λ `unsureHasData`, behind its call of `readExact`.
  abbrev pub fetched :
      ℕ → MessagePrivate → Io W (Option (List ℕ)) → Io W (ReadFdRes × MessagePrivate)
  fetched n m (halted s) = halted s
  fetched n m (returned none w) = returned (failure, m) w
  fetched n m (returned (some bs) w) =
      let r = record (m.reader) { bytes = m.reader.bytes ++ bs } in
      returned
        (if ltb (length r.bytes) n then would_block_res else success, record m { reader = r }) w

  unfoldable pub ensure_data : ℕ → MessagePrivate → W → Io W (ReadFdRes × MessagePrivate)
  ensure_data n m w =
      let have = length m.reader.bytes in
      if leb n have then returned (success, m) w else fetched n m (read_exact (n - have) w)

  -- The rest of `readFd` runs after a success only.
  abbrev pub on_success :
      Io W (ReadFdRes × MessagePrivate)
      → (MessagePrivate → W → Io W (ReadFdRes × MessagePrivate))
      → Io W (ReadFdRes × MessagePrivate)
  on_success (returned (success, m) w) next = next m w
  on_success (returned (failure, m) w) next = returned (fail failure m) w
  on_success (returned (would_block_res, m) w) next = returned (fail would_block_res m) w
  on_success (halted s) next = halted s

  abbrev pub of_attempt : Attempt → W → Io W (ReadFdRes × MessagePrivate)
  of_attempt (attempt res m) w = returned (res, m) w
  of_attempt (broke s) w = halted s

  unfoldable pub read_fd : MessagePrivate → W → Io W (ReadFdRes × MessagePrivate)
  read_fd m w = on_success (ensure_data 16 m w) λ m1 w1.
      on_success (of_attempt (parse_fixed m1) w1) λ m2 w2.
        on_success (ensure_data (total_size m2.fixed_header) m2 w2)
          λ m3 w3. on_success (of_attempt (parse_dynamic m3) w3) λ m4 w4. returned (success, m4) w4
