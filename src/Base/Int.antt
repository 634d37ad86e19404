-- ===== src/Base/Int.antt =====
-- Signed integers over the native numbers, and Go's int64 arithmetic, which wraps around.
use Prim.Native.Nat.{ℕ, suc, ◌+◌, ◌-◌, ◌%◌, ◌≤◌}
use mathlib.Core.Path.{◌≡◌}
use mathlib.Core.Bool.{Bool, false}
use native.Mathlib.Omega.{arith}
use monierave.Base.Tests.{ltb, leb, ◌==◌, if◌then◌else◌}

-- `negsuc n` is -(n + 1).
pub data ℤ : Type 0 where
  pos : ℕ → ℤ
  negsuc : ℕ → ℤ

abbrev pub pos_part : ℤ → ℕ
pos_part (pos n) = n
pos_part (negsuc n) = 0

abbrev pub neg_part : ℤ → ℕ
neg_part (pos n) = 0
neg_part (negsuc n) = suc n

abbrev pub sub_ℕ : ℕ → ℕ → ℤ
sub_ℕ a b = if leb b a then pos (a - b) else negsuc (b - a - 1)

infixl 65 ◌+ℤ◌ ◌-ℤ◌
infix 50 ◌≤ℤ◌ ◌==ℤ◌
unfoldable pub ◌+ℤ◌ : ℤ → ℤ → ℤ
a +ℤ b = sub_ℕ (pos_part a + pos_part b) (neg_part a + neg_part b)

unfoldable pub ◌-ℤ◌ : ℤ → ℤ → ℤ
a -ℤ b = sub_ℕ (pos_part a + neg_part b) (neg_part a + pos_part b)

unfoldable pub neg : ℤ → ℤ
neg a = sub_ℕ (neg_part a) (pos_part a)

abbrev pub ◌≤ℤ◌ : ℤ → ℤ → Type 0
a ≤ℤ b = pos_part a + neg_part b ≤ pos_part b + neg_part a

abbrev pub ltb_ℤ : ℤ → ℤ → Bool
ltb_ℤ a b = ltb (pos_part a + neg_part b) (pos_part b + neg_part a)

abbrev pub leb_ℤ : ℤ → ℤ → Bool
leb_ℤ a b = leb (pos_part a + neg_part b) (pos_part b + neg_part a)

abbrev pub ◌==ℤ◌ : ℤ → ℤ → Bool
a ==ℤ b = pos_part a + neg_part b == pos_part b + neg_part a

pub +ℤ_parts :
    (a b : ℤ)
    → pos_part (a +ℤ b) + neg_part a + neg_part b ≡ neg_part (a +ℤ b) + pos_part a + pos_part b
unfolding ◌+ℤ◌
+ℤ_parts a b = ground arith

pub -ℤ_parts :
    (a b : ℤ)
    → pos_part (a -ℤ b) + neg_part a + pos_part b ≡ neg_part (a -ℤ b) + pos_part a + neg_part b
unfolding ◌-ℤ◌
-ℤ_parts a b = ground arith

pub neg_parts : (a : ℤ) → pos_part (neg a) + pos_part a ≡ neg_part (neg a) + neg_part a
unfolding neg
neg_parts a = ground arith

pub eq_of_parts : (a b : ℤ) → pos_part a + neg_part b ≡ pos_part b + neg_part a → a ≡ b
eq_of_parts a b h = ground arith

pub ruleset int_laws = (arith, +ℤ_parts, -ℤ_parts, neg_parts, eq_of_parts)

-- The value of an int64 whose bits are those of an unbounded result.
unfoldable pub wrap64 : ℤ → ℤ
wrap64 (pos n) =
    let bits = n % 0x10000000000000000 in
    if ltb bits 0x8000000000000000 then pos bits else negsuc (0xffffffffffffffff - bits)
wrap64 (negsuc n) =
    let bits = n % 0x10000000000000000 in
    if ltb bits 0x8000000000000000 then negsuc bits else pos (0xffffffffffffffff - bits)

abbrev pub max_int64 : ℤ
max_int64 = pos 0x7fffffffffffffff

abbrev pub min_int64 : ℤ
min_int64 = negsuc 0x7fffffffffffffff

abbrev pub IsInt64 : ℤ → Type 0
IsInt64 a = (min_int64 ≤ℤ a) × (a ≤ℤ max_int64)

-- An int64 whose negative is an int64.
abbrev pub Negatable : ℤ → Type 0
Negatable a = (pos_part a ≤ 0x7fffffffffffffff) × (neg_part a ≤ 0x7fffffffffffffff)

-- Within the range of int64 nothing wraps.
pub wrap64-of-IsInt64 : (a : ℤ) → IsInt64 a → wrap64 a ≡ a
unfolding wrap64
wrap64-of-IsInt64 (pos n) h = ground arith
wrap64-of-IsInt64 (negsuc n) h = ground arith

-- Go's `-a`, `a + b` and `a - b` on int64.
unfoldable pub neg64 : ℤ → ℤ
unfolding neg wrap64
neg64 a = wrap64 (neg a)

unfoldable pub add64 : ℤ → ℤ → ℤ
unfolding ◌+ℤ◌ wrap64
add64 a b = wrap64 (a +ℤ b)

unfoldable pub sub64 : ℤ → ℤ → ℤ
unfolding ◌-ℤ◌ wrap64
sub64 a b = wrap64 (a -ℤ b)

-- A positive int64 has a negative, and the two add up to nothing.
pub neg64_opposite : (a : ℤ) → leb_ℤ a (pos 0) ≡ false → a ≤ℤ max_int64 → neg64 a +ℤ a ≡ pos 0
unfolding neg64 ◌+ℤ◌
neg64_opposite (pos n) h k = ground arith
neg64_opposite (negsuc n) h k = ground arith

pub neg64-Negatable : (a : ℤ) → Negatable a → neg64 a ≡ neg a
unfolding neg64 neg
neg64-Negatable (pos n) h = ground arith
neg64-Negatable (negsuc n) h = ground arith

pub positive_Negatable : (a : ℤ) → leb_ℤ a (pos 0) ≡ false → a ≤ℤ max_int64 → Negatable a
positive_Negatable (pos n) h k = (omega arith, omega arith)
positive_Negatable (negsuc n) h k = ground arith

-- What was negated is negated back.
pub neg64_back : (a : ℤ) → Negatable a → Negatable (neg64 a) × (neg64 (neg64 a) ≡ a)
unfolding neg64 neg
neg64_back (pos n) h = ground arith
neg64_back (negsuc n) h = ground arith
