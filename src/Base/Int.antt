-- ===== src/Base/Int.antt =====
-- Signed integers, and Go's conversion `int32(n)`.
use Prim.Native.Nat.{ℕ, ◌-◌, ◌%◌, ◌<◌}
use mathlib.Core.Path.{◌≡◌}
use native.Mathlib.Omega.{arith}
use habitat_operator.Base.Tests.{ltb, if◌then◌else◌}

-- `negsuc n` is -(n + 1).
pub data ℤ : Type 0 where
  pos : ℕ → ℤ
  negsuc : ℕ → ℤ

-- The integer that a 32-bit pattern stands for.
abbrev pub signed32 : ℕ → ℤ
signed32 w = if ltb w 2147483648 then pos w else negsuc (4294967295 - w)

-- `int32(n)` keeps the low 32 bits of the two's complement of `n`.
abbrev pub int32 : ℤ → ℤ
int32 (pos n) = signed32 (n % 4294967296)
int32 (negsuc n) = signed32 (4294967295 - n % 4294967296)

-- The values of the type `int32`.
abbrev pub IsInt32 : ℤ → Type 0
IsInt32 (pos n) = n < 2147483648
IsInt32 (negsuc n) = n < 2147483648

-- Two integers with the same low 32 bits.
abbrev pub low32 : ℤ → ℕ
low32 (pos n) = n % 4294967296
low32 (negsuc n) = 4294967295 - n % 4294967296

pub int32-IsInt32 : (n : ℤ) → IsInt32 (int32 n)
int32-IsInt32 (pos n) = ground arith
int32-IsInt32 (negsuc n) = ground arith

pub low32-int32 : (n : ℤ) → low32 (int32 n) ≡ low32 n
low32-int32 (pos n) = ground arith
low32-int32 (negsuc n) = ground arith
