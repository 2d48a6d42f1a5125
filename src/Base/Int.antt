-- ===== src/Base/Int.antt =====
-- Go's `int32` as an integer, with the wrap of a conversion from `int` and of `++`.
use Prim.Native.Nat.{ℕ, suc, ◌+◌, ◌-◌, ◌%◌, ◌<◌}
use mathlib.Core.Path.{◌≡◌}
use mathlib.Core.Bool.{Bool}
use native.Mathlib.Omega.{arith}
use kink.Base.Tests.{ltb, if◌then◌else◌}

-- `negsuc n` is -(n + 1).
pub data ℤ : Type 0 where
  pos : ℕ → ℤ
  negsuc : ℕ → ℤ

abbrev pub pos_part : ℤ → ℕ
pos_part (pos n) = n
pos_part (negsuc n) = 0

abbrev pub neg_part : ℤ → ℕ
neg_part (pos n) = 0
neg_part (negsuc n) = suc n

abbrev pub ltb_ℤ : ℤ → ℤ → Bool
ltb_ℤ a b = ltb (pos_part a + neg_part b) (pos_part b + neg_part a)

-- The values of an `int32` run from `negsuc (int32_half - 1)` to `pos (int32_half - 1)`.
abbrev pub int32_half : ℕ
int32_half = 2147483648

abbrev pub int32_mod : ℕ
int32_mod = 4294967296

-- `int32(i)` of a non-negative `int`.
unfoldable pub to_int32 : ℕ → ℤ
to_int32 i = let r = i % int32_mod in if ltb r int32_half then pos r else negsuc (int32_mod - 1 - r)

-- `x++` on an `int32`.
abbrev pub inc_int32 : ℤ → ℤ
inc_int32 (pos n) = if ltb (suc n) int32_half then pos (suc n) else negsuc (int32_half - 1)
inc_int32 (negsuc n) = if ltb 0 n then negsuc (n - 1) else pos 0

pub to_int32_small : (i : ℕ) → i < int32_half → to_int32 i ≡ pos i
unfolding to_int32
to_int32_small i h = ground arith
