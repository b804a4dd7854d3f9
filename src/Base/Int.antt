-- ===== src/Base/Int.antt =====
-- Signed integers over the native numbers: status codes, 0 or the negation of an errno.
use Prim.Native.Nat.{ℕ, zero, suc, ◌-◌, ◌^◌}
use mathlib.Core.Bool.{Bool, false}
use sensorium.Base.Num.{◌==◌, leb, if◌then◌else◌}

-- `negsuc n` is -(n + 1).
pub data ℤ : Type 0 where
  pos : ℕ → ℤ
  negsuc : ℕ → ℤ

-- `-n`
abbrev pub neg : ℕ → ℤ
neg zero = pos 0
neg (suc n) = negsuc n

abbrev pub int_eq : ℤ → ℤ → Bool
int_eq (pos a) (pos b) = a == b
int_eq (negsuc a) (negsuc b) = a == b
int_eq _ _ = false

-- the 32-bit pattern of a signed `<i` field
abbrev pub two_complement : ℤ → ℕ
two_complement (pos n) = n
two_complement (negsuc n) = 2 ^ 32 - suc n

-- `a - b`
abbrev pub int_sub : ℕ → ℕ → ℤ
int_sub a b = if leb b a then pos (a - b) else negsuc (b - a - 1)
