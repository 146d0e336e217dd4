-- ===== src/Examples/Writer/Appends.antt =====
-- The class `Writer` of examples/dbus/dbus-message.h against the wire format.
use firmir.Base.{
  ℕ, zero, suc, ◌+◌, ◌-◌, ◌%◌, ◌^◌, ◌≤◌, ◌<◌, ◌≡◌, refl, ◌⊎◌, arith, true, false, Bool-cases, inl,
  inr, some, List, [], ◌∷◌, ◌++◌, length, length-append, append-nil, append_assoc, le→ltb_false,
  ◌==◌,
}
use firmir.Dbus.Wire.{IsUint32}
use firmir.Dbus.Message.Layout.{up, gap, word, text, short_text, le-up}
use firmir.Dbus.Message.Writer.{Writer}
use firmir.Examples.Writer.{
  append, align_loop, align, write_u8, write_uint, write_u32, write_string, write_signature,
}

abbrev Aligns : ℕ → Type 0
Aligns a = (a ≡ 4) ⊎ (a ≡ 8)

-- A byte more, where some are missing.
up-suc : (a n : ℕ) → Aligns a → (n % a == 0) ≡ false → (suc n ≤ up a n) × (up a (suc n) ≡ up a n)
unfolding up
up-suc a n (inl h) f = rw h (ground (arith, rw h at f))
up-suc a n (inr h) f = rw h (ground (arith, rw h at f))

Aligns-positive : (a : ℕ) → Aligns a → 0 < a
Aligns-positive a (inl h) = omega arith
Aligns-positive a (inr h) = omega arith

-- Fewer than `a` bytes are missing.
up-lt : (a n : ℕ) → 0 < a → up a n < n + a
unfolding up
up-lt a n h = ground arith

gap-none : (a n : ℕ) → (n % a == 0) ≡ true → gap a n ≡ []
unfolding gap up
gap-none a n t = let none_left : n - n ≡ 0 = omega arith in rw (t, none_left)

gap-suc : (a n : ℕ) → Aligns a → (n % a == 0) ≡ false → gap a n ≡ 0 ∷ gap a (suc n)
unfolding gap
gap-suc a n s f =
    let u = up-suc a n s f in
    let one_more : up a n - n ≡ suc (up a n - suc n) = omega (arith, u.0) in rw (u.1, one_more)

align_loop_lem :
    (fuel a : ℕ) (w : Writer)
    → Aligns a
    → up a (length w.bytes) < length w.bytes + fuel
    → align_loop fuel a w ≡ append w (gap a (length w.bytes))
unfolding align_loop
align_loop_lem zero a w s h = absurd (omega (arith, le-up a (length w.bytes) (Aligns-positive a s)))
align_loop_lem (suc fuel) a w s h = elim (Bool-cases (length w.bytes % a == 0)) [
  | inl t ↦ rw (t, gap-none a (length w.bytes) t, append-nil)
  | inr f ↦
      let n = length w.bytes in
      let next : length (w.bytes ++ 0 ∷ []) ≡ suc n =
        omega (arith, length-append w.bytes (0 ∷ [])) in
      rw (
        f,
        align_loop_lem fuel a (append w (0 ∷ [])) s (rw (next, (up-suc a n s f).1) (omega arith)),
        next,
        gap-suc a n s f,
        append_assoc,
      )
]

pub align_lem : (a : ℕ) (w : Writer) → Aligns a → align a w ≡ append w (gap a (length w.bytes))
unfolding align
align_lem a w s = align_loop_lem a a w s (up-lt a (length w.bytes) (Aligns-positive a s))

pub write_u32_lem :
    (v : ℕ) (w : Writer) → write_u32 v w ≡ append w (gap 4 (length w.bytes) ++ word w.endian v)
unfolding write_u32 write_uint word
write_u32_lem v w = rw (align_lem 4 w (inl refl), append_assoc)

pub write_string_lem :
    (s : List ℕ) (w : Writer)
    → IsUint32 (length s)
    → write_string s w ≡ append w (gap 4 (length w.bytes) ++ text w.endian s)
unfolding write_string text
write_string_lem s w h =
    let whole : length s % 2 ^ 32 ≡ length s = omega arith in
    rw (whole, write_u32_lem (length s) w) (simp append_assoc)

pub write_signature_lem :
    (s : List ℕ) (w : Writer)
    → length s < 256
    → write_signature s w ≡ some (append w (short_text s))
unfolding write_signature write_u8 short_text
write_signature_lem s w h =
    let whole : length s % 2 ^ 8 ≡ length s = omega arith in
    rw (le→ltb_false 255 (length s) (omega arith), whole) (simp append_assoc)
