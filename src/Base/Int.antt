-- ===== src/Base/Int.antt =====
-- Signed integers, and the two's complement reading of a word.
use Prim.Native.Nat.{ℕ, ◌-◌, ◌*◌, ◌<◌}
use mathlib.Core.Path.{◌≡◌}
use firmir.Base.Tests.{ltb, if◌then◌else◌}
use native.Mathlib.Omega.{arith}

-- `negsuc n` is -(n + 1).
pub data ℤ : Type 0 where
  pos : ℕ → ℤ
  negsuc : ℕ → ℤ

-- A value below `2 * half` as the signed number of that many bits, and back.
unfoldable pub to_signed : ℕ → ℕ → ℤ
to_signed half w = if ltb w half then pos w else negsuc (2 * half - w - 1)

unfoldable pub to_unsigned : ℕ → ℤ → ℕ
to_unsigned half (pos n) = n
to_unsigned half (negsuc n) = 2 * half - n - 1

pub to_unsigned-to_signed : (half w : ℕ) → w < 2 * half → to_unsigned half (to_signed half w) ≡ w
unfolding to_unsigned to_signed
to_unsigned-to_signed half w h = ground arith
