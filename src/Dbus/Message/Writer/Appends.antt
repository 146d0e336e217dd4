-- ===== src/Dbus/Message/Writer/Appends.antt =====
-- `MessagePrivate::Writer` of dbus/message.cpp against the wire format.
use firmir.Base.{
  ℕ, ◌-◌, ◌%◌, ◌^◌, ◌<◌, ◌≡◌, arith, Bool-cases, inl, inr, List, ◌++◌, length, append-nil,
  append_assoc, ◌==◌,
}
use firmir.Dbus.Wire.{IsUint32}
use firmir.Dbus.Message.Layout.{up, gap, word, text, short_text}
use firmir.Dbus.Message.Writer.{
  Writer, append, align, write_uint8, write_uint, write_uint32, write_string, write_signature,
}

pub align_lem : (a : ℕ) (w : Writer) → align a w ≡ append w (gap a (length w.bytes))
unfolding align gap up
align_lem a w = elim (Bool-cases (length w.bytes % a == 0)) [
  | inl t ↦
      let none_left : length w.bytes - length w.bytes ≡ 0 = omega arith in
      rw (t, none_left, append-nil)
  | inr f ↦ rw f
]

pub write_uint32_lem :
    (v : ℕ) (w : Writer) → write_uint32 v w ≡ append w (gap 4 (length w.bytes) ++ word w.endian v)
unfolding write_uint32 write_uint word
write_uint32_lem v w = rw (align_lem 4 w, append_assoc)

pub write_string_lem :
    (s : List ℕ) (w : Writer)
    → IsUint32 (length s)
    → write_string s w ≡ append w (gap 4 (length w.bytes) ++ text w.endian s)
unfolding write_string text
write_string_lem s w h =
    let whole : length s % 2 ^ 32 ≡ length s = omega arith in
    rw (whole, write_uint32_lem (length s) w) (simp append_assoc)

pub write_signature_lem :
    (s : List ℕ) (w : Writer) → length s < 256 → write_signature s w ≡ append w (short_text s)
unfolding write_signature write_uint8 short_text
write_signature_lem s w h =
    let whole : length s % 2 ^ 8 ≡ length s = omega arith in rw whole (simp append_assoc)
