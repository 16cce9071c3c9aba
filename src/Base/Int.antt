-- ===== src/Base/Int.antt =====
-- Signed integers over the native numbers, and machine words in two's complement.
use Prim.Native.Nat.{ℕ, zero, suc, ◌+◌, ◌-◌, ◌<◌}
use mathlib.Core.Path.{◌≡◌}
use mathlib.Core.Bool.{Bool, false}
use native.Mathlib.Omega.{arith}
use allsquare.Base.Tests.{ltb, ◌==◌, if◌then◌else◌}

-- `negsuc n` is -(n + 1).
pub data ℤ : Type 0 where
  pos : ℕ → ℤ
  negsuc : ℕ → ℤ

abbrev pub neg_ℤ : ℤ → ℤ
neg_ℤ (pos zero) = pos zero
neg_ℤ (pos (suc n)) = negsuc n
neg_ℤ (negsuc n) = pos (suc n)

-- `a == b` on integers.
abbrev pub eq_ℤ : ℤ → ℤ → Bool
eq_ℤ (pos a) (pos b) = a == b
eq_ℤ (negsuc a) (negsuc b) = a == b
eq_ℤ _ _ = false

-- The value of a word whose bit pattern is `v`, where `half` is half the modulus.
abbrev pub signed : ℕ → ℕ → ℤ
signed half v = if ltb v half then pos v else negsuc (half + half - v - 1)

-- The bit pattern of a 16-bit integer.
abbrev pub word16 : ℤ → ℕ
word16 (pos n) = n
word16 (negsuc n) = 65535 - n

abbrev pub IsI16 : ℤ → Type 0
IsI16 (pos n) = n < 32768
IsI16 (negsuc n) = n < 32768

abbrev pub IsI32 : ℤ → Type 0
IsI32 (pos n) = n < 2147483648
IsI32 (negsuc n) = n < 2147483648

pub word16-lt : (z : ℤ) → IsI16 z → word16 z < 65536
word16-lt (pos n) h = omega arith
word16-lt (negsuc n) h = omega arith

pub signed-word16 : (z : ℤ) → IsI16 z → signed 32768 (word16 z) ≡ z
signed-word16 (pos n) h = ground arith
signed-word16 (negsuc n) h = ground arith

pub signed-IsI16 : (v : ℕ) → v < 65536 → IsI16 (signed 32768 v)
signed-IsI16 v h = ground arith

pub signed-IsI32 : (v : ℕ) → v < 4294967296 → IsI32 (signed 2147483648 v)
signed-IsI32 v h = ground arith

pub word16-signed : (v : ℕ) → v < 65536 → word16 (signed 32768 v) ≡ v
word16-signed v h = ground arith
