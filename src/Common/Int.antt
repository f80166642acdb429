-- ===== src/Common/Int.antt =====
-- Signed integers over the native numbers, and the 32-bit `int` of the programs: the sum, the
-- difference and the product of two `int` wrap around, as gcc computes them.
use Prim.Native.Nat.{ℕ, suc, ◌+◌, ◌-◌, ◌*◌, ◌/◌, ◌%◌, ◌^◌, ◌≤◌, ◌<◌}
use mathlib.Core.Path.{◌≡◌}
use mathlib.Core.Logic.{◌↔◌}
use mathlib.Core.Bool.{Bool, true}
use native.Mathlib.Omega.{arith}
use sp_homework.Common.Tests.{ltb, leb, ◌==◌, if◌then◌else◌}

-- `negsuc n` is -(n + 1).
pub data ℤ : Type 0 where
  pos : ℕ → ℤ
  negsuc : ℕ → ℤ

abbrev pub pos_part : ℤ → ℕ
pos_part (pos n) = n
pos_part (negsuc n) = 0

abbrev pub neg_part : ℤ → ℕ
neg_part (pos n) = 0
neg_part (negsuc n) = suc n

-- a - b, as an integer.
abbrev pub sub_ℕ : ℕ → ℕ → ℤ
sub_ℕ a b = if leb b a then pos (a - b) else negsuc (b - a - 1)

infixl 65 ◌+ℤ◌ ◌-ℤ◌
infixl 70 ◌*ℤ◌
infix 50 ◌≤ℤ◌ ◌<ℤ◌
unfoldable pub ◌+ℤ◌ : ℤ → ℤ → ℤ
a +ℤ b = sub_ℕ (pos_part a + pos_part b) (neg_part a + neg_part b)

unfoldable pub ◌-ℤ◌ : ℤ → ℤ → ℤ
a -ℤ b = sub_ℕ (pos_part a + neg_part b) (neg_part a + pos_part b)

unfoldable pub ◌*ℤ◌ : ℤ → ℤ → ℤ
a *ℤ b =
    sub_ℕ (pos_part a * pos_part b + neg_part a * neg_part b)
      (pos_part a * neg_part b + neg_part a * pos_part b)

abbrev pub ◌≤ℤ◌ : ℤ → ℤ → Type 0
a ≤ℤ b = pos_part a + neg_part b ≤ pos_part b + neg_part a

abbrev pub ◌<ℤ◌ : ℤ → ℤ → Type 0
a <ℤ b = pos_part a + neg_part b < pos_part b + neg_part a

abbrev pub ltb_ℤ : ℤ → ℤ → Bool
ltb_ℤ a b = ltb (pos_part a + neg_part b) (pos_part b + neg_part a)

abbrev pub eqb_ℤ : ℤ → ℤ → Bool
eqb_ℤ a b = (pos_part a + neg_part b) == (pos_part b + neg_part a)

-- The value of a 32-bit pattern as a two's complement `int`.
abbrev pub signed32 : ℕ → ℤ
signed32 w = if ltb w (2 ^ 31) then pos w else negsuc (2 ^ 32 - w - 1)

-- Conversion to `int`: the value modulo 2^32.
unfoldable pub to_int : ℤ → ℤ
to_int (pos n) = signed32 (n % 2 ^ 32)
to_int (negsuc n) = signed32 (2 ^ 32 - 1 - n % 2 ^ 32)

-- The values of an `int`.
abbrev pub IsInt : ℤ → Type 0
IsInt z = (pos_part z < 2 ^ 31) × (neg_part z ≤ 2 ^ 31)

abbrev pub int_add : ℤ → ℤ → ℤ
int_add a b = to_int (a +ℤ b)

abbrev pub int_sub : ℤ → ℤ → ℤ
int_sub a b = to_int (a -ℤ b)

abbrev pub int_mul : ℤ → ℤ → ℤ
int_mul a b = to_int (a *ℤ b)

-- `z / 2` and `z % 2` of C: the quotient is rounded towards 0.
unfoldable pub int_half : ℤ → ℤ
int_half (pos n) = pos (n / 2)
int_half (negsuc n) = sub_ℕ 0 (suc n / 2)

unfoldable pub is_even : ℤ → Bool
is_even z = (pos_part z + neg_part z) % 2 == 0

pub to_int-IsInt : (z : ℤ) → IsInt (to_int z)
unfolding to_int
to_int-IsInt (pos n) = ground arith
to_int-IsInt (negsuc n) = ground arith

pub to_int_lem : (z : ℤ) → IsInt z → to_int z ≡ z
unfolding to_int
to_int_lem (pos n) h = ground arith
to_int_lem (negsuc n) h = ground arith

-- One lemma for each operation lets `omega` work with the operations shut.
pub +ℤ_parts :
    (a b : ℤ)
    → pos_part (a +ℤ b) + neg_part a + neg_part b ≡ neg_part (a +ℤ b) + pos_part a + pos_part b
unfolding ◌+ℤ◌
+ℤ_parts a b = ground arith

pub -ℤ_parts :
    (a b : ℤ)
    → pos_part (a -ℤ b) + neg_part a + pos_part b ≡ neg_part (a -ℤ b) + pos_part a + neg_part b
unfolding ◌-ℤ◌
-ℤ_parts a b = ground arith

-- Only one of the parts is not 0.
pub parts_apart : (a : ℤ) → pos_part a * neg_part a ≡ 0
parts_apart (pos n) = omega arith
parts_apart (negsuc n) = omega arith

pub eq_of_parts : (a b : ℤ) → pos_part a + neg_part b ≡ pos_part b + neg_part a → a ≡ b
eq_of_parts a b h = ground arith

pub ruleset int_laws = (arith, +ℤ_parts, -ℤ_parts, eq_of_parts)

-- Wrap-around is compatible with sums: only the value modulo 2^32 counts.
pub int_add-to_int : (a b : ℕ) → int_add (to_int (pos a)) (to_int (pos b)) ≡ to_int (pos (a + b))
unfolding to_int ◌+ℤ◌
int_add-to_int a b = ground arith

pub int_add_small : (a b : ℤ) → IsInt (a +ℤ b) → int_add a b ≡ a +ℤ b
int_add_small a b h = to_int_lem (a +ℤ b) h

-- A counter below INT_MAX is counted up.
pub int_add-one : (n : ℕ) → suc n < 2 ^ 31 → int_add (pos n) (pos 1) ≡ pos (suc n)
unfolding to_int ◌+ℤ◌
int_add-one n h = ground arith

pub +ℤ_zero : (a : ℤ) → a +ℤ pos 0 ≡ a
+ℤ_zero a = omega int_laws

pub +ℤ_comm : (a b : ℤ) → a +ℤ b ≡ b +ℤ a
+ℤ_comm a b = omega int_laws

-- Bounds on both sides by one number.
abbrev pub IsWithin : ℕ → ℤ → Type 0
IsWithin m z = (pos_part z ≤ m) × (neg_part z ≤ m)

pub +ℤ-IsWithin : (m n : ℕ) (a b : ℤ) → IsWithin m a → IsWithin n b → IsWithin (m + n) (a +ℤ b)
unfolding ◌+ℤ◌
+ℤ-IsWithin m n a b h k = ground arith

-- Taking a positive amount from a positive `int` lowers it and leaves an `int`.
pub -ℤ_lowers :
    (a d : ℤ)
    → pos 0 <ℤ a
    → IsInt a
    → pos 0 <ℤ d
    → pos_part d < 2 ^ 31
    → IsInt (a -ℤ d) × (a -ℤ d <ℤ a)
unfolding ◌-ℤ◌
-ℤ_lowers a d h i k m = ground arith

pub eqb_ℤ_iff : (a b : ℤ) → (eqb_ℤ a b ≡ true) ↔ (a ≡ b)
eqb_ℤ_iff a b = ground arith

pub neg_part_nonneg : (z : ℤ) → pos 0 ≤ℤ z → neg_part z ≡ 0
neg_part_nonneg z h = ground arith

-- Two numbers with small bounds are added exactly.
pub int_add_within :
    (m n : ℕ) (a b : ℤ) → IsWithin m a → IsWithin n b → m + n < 2 ^ 31 → int_add a b ≡ a +ℤ b
int_add_within m n a b h k small =
    let sum = +ℤ-IsWithin m n a b h k in int_add_small a b (omega arith)
