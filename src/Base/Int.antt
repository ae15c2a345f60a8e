-- ===== src/Base/Int.antt =====
-- Signed integers over the native numbers, and Go's int64 with its wrap-around.
use Prim.Native.Nat.{ℕ, suc, ◌+◌, ◌-◌, ◌*◌, ◌%◌, ◌^◌, ◌≤◌, ◌<◌}
use mathlib.Core.Path.{◌≡◌}
use mathlib.Core.Logic.{◌⊎◌}
use mathlib.Core.Bool.{Bool}
use native.Mathlib.Omega.{arith}
unfoldable use native.Mathlib.Decide.{ℕ_discrete}
use b_go_util.Base.Tests.{ltb, leb, if◌then◌else◌}

-- `negsuc n` is -(n + 1).
pub data ℤ : Type 0 where
  pos : ℕ → ℤ
  negsuc : ℕ → ℤ

unfoldable pub ℤ-discrete : Discrete ℤ
ℤ-discrete = hlevel ℕ_discrete

abbrev pub pos_part : ℤ → ℕ
pos_part (pos n) = n
pos_part (negsuc n) = 0

abbrev pub neg_part : ℤ → ℕ
neg_part (pos n) = 0
neg_part (negsuc n) = suc n

-- a - b, as an integer.
abbrev pub sub_ℕ : ℕ → ℕ → ℤ
sub_ℕ a b = if leb b a then pos (a - b) else negsuc (b - a - 1)

infixl 65 ◌+ℤ◌ ◌-ℤ◌
infixl 70 ◌*ℤ◌
infix 50 ◌≤ℤ◌ ◌<ℤ◌
unfoldable pub ◌+ℤ◌ : ℤ → ℤ → ℤ
a +ℤ b = sub_ℕ (pos_part a + pos_part b) (neg_part a + neg_part b)

unfoldable pub ◌-ℤ◌ : ℤ → ℤ → ℤ
a -ℤ b = sub_ℕ (pos_part a + neg_part b) (neg_part a + pos_part b)

unfoldable pub ◌*ℤ◌ : ℤ → ℤ → ℤ
a *ℤ b =
    sub_ℕ (pos_part a * pos_part b + neg_part a * neg_part b)
      (pos_part a * neg_part b + neg_part a * pos_part b)

abbrev pub ◌≤ℤ◌ : ℤ → ℤ → Type 0
a ≤ℤ b = pos_part a + neg_part b ≤ pos_part b + neg_part a

abbrev pub ◌<ℤ◌ : ℤ → ℤ → Type 0
a <ℤ b = pos_part a + neg_part b < pos_part b + neg_part a

abbrev pub ltb_ℤ : ℤ → ℤ → Bool
ltb_ℤ a b = ltb (pos_part a + neg_part b) (pos_part b + neg_part a)

abbrev pub leb_ℤ : ℤ → ℤ → Bool
leb_ℤ a b = leb (pos_part a + neg_part b) (pos_part b + neg_part a)

-- The 64 bits of an integer, and the signed integer that 64 bits stand for.
abbrev pub bits64 : ℤ → ℕ
bits64 (pos n) = n % 2 ^ 64
bits64 (negsuc n) = 2 ^ 64 - 1 - n % 2 ^ 64

abbrev pub signed64 : ℕ → ℤ
signed64 u = if ltb u (2 ^ 63) then pos u else negsuc (2 ^ 64 - 1 - u)

-- The int64 that an exact result is cut to.
unfoldable pub wrap64 : ℤ → ℤ
wrap64 a = signed64 (bits64 a)

abbrev pub IsInt64 : ℤ → Type 0
IsInt64 a = (pos_part a < 2 ^ 63) × (neg_part a ≤ 2 ^ 63)

pub wrap64_of_IsInt64 : (a : ℤ) → IsInt64 a → wrap64 a ≡ a
unfolding wrap64
wrap64_of_IsInt64 (pos n) h = ground arith
wrap64_of_IsInt64 (negsuc n) h = ground arith

pub wrap64-IsInt64 : (a : ℤ) → IsInt64 (wrap64 a)
unfolding wrap64
wrap64-IsInt64 (pos n) = ground arith
wrap64-IsInt64 (negsuc n) = ground arith

pub +ℤ_parts :
    (a b : ℤ)
    → pos_part (a +ℤ b) + neg_part a + neg_part b ≡ neg_part (a +ℤ b) + pos_part a + pos_part b
unfolding ◌+ℤ◌
+ℤ_parts a b = ground arith

pub -ℤ_parts :
    (a b : ℤ)
    → pos_part (a -ℤ b) + neg_part a + pos_part b ≡ neg_part (a -ℤ b) + pos_part a + neg_part b
unfolding ◌-ℤ◌
-ℤ_parts a b = ground arith

pub eq_of_parts : (a b : ℤ) → pos_part a + neg_part b ≡ pos_part b + neg_part a → a ≡ b
eq_of_parts a b h = ground arith

-- One part of an integer is 0.
pub parts_apart : (a : ℤ) → (pos_part a ≡ 0) ⊎ (neg_part a ≡ 0)
parts_apart (pos n) = omega arith
parts_apart (negsuc n) = omega arith

pub ruleset int_laws = (arith, +ℤ_parts, -ℤ_parts, eq_of_parts)
