-- ===== src/Base/Int.antt =====
-- Integers over the native numbers, and Decimal's ROUND_HALF_UP on a fraction.
use Prim.Native.Nat.{ℕ, zero, suc, ◌+◌, ◌-◌, ◌*◌, ◌/◌, ◌≤◌, ◌<◌}
use mathlib.Core.Path.{◌≡◌, refl, ap}
use mathlib.Core.Bool.{Bool, true, false}
use mathlib.Core.List.{List, [], ◌∷◌, ◌++◌}
use native.Mathlib.Omega.{arith}
use opencloud_backend.Base.Tests.{leb, if◌then◌else◌}

-- `negsuc n` is -(n + 1).
pub data ℤ : Type 0 where
  pos : ℕ → ℤ
  negsuc : ℕ → ℤ

abbrev pub pos_part : ℤ → ℕ
pos_part (pos n) = n
pos_part (negsuc n) = 0

abbrev pub neg_part : ℤ → ℕ
neg_part (pos n) = 0
neg_part (negsuc n) = suc n

abbrev pub sub_ℕ : ℕ → ℕ → ℤ
sub_ℕ a b = if leb b a then pos (a - b) else negsuc (b - a - 1)

infixl 65 ◌+ℤ◌ ◌-ℤ◌
infixl 70 ◌*ℤ◌
infix 50 ◌≤ℤ◌
unfoldable pub ◌+ℤ◌ : ℤ → ℤ → ℤ
a +ℤ b = sub_ℕ (pos_part a + pos_part b) (neg_part a + neg_part b)

unfoldable pub ◌-ℤ◌ : ℤ → ℤ → ℤ
a -ℤ b = sub_ℕ (pos_part a + neg_part b) (neg_part a + pos_part b)

-- The product with a number that is not negative.
unfoldable pub ◌*ℤ◌ : ℤ → ℕ → ℤ
a *ℤ n = sub_ℕ (pos_part a * n) (neg_part a * n)

abbrev pub ◌≤ℤ◌ : ℤ → ℤ → Type 0
a ≤ℤ b = pos_part a + neg_part b ≤ pos_part b + neg_part a

-- `bool(x)` of a number
unfoldable pub is_nonzero : ℤ → Bool
is_nonzero (pos zero) = false
is_nonzero (pos (suc n)) = true
is_nonzero (negsuc n) = true

pub +ℤ_parts :
    (a b : ℤ)
    → pos_part (a +ℤ b) + neg_part a + neg_part b ≡ neg_part (a +ℤ b) + pos_part a + pos_part b
unfolding ◌+ℤ◌
+ℤ_parts a b = ground arith

pub -ℤ_parts :
    (a b : ℤ)
    → pos_part (a -ℤ b) + neg_part a + pos_part b ≡ neg_part (a -ℤ b) + pos_part a + neg_part b
unfolding ◌-ℤ◌
-ℤ_parts a b = ground arith

pub eq_of_parts : (a b : ℤ) → pos_part a + neg_part b ≡ pos_part b + neg_part a → a ≡ b
eq_of_parts a b h = ground arith

pub ruleset int_laws = (arith, +ℤ_parts, -ℤ_parts, eq_of_parts)

pub zero-*ℤ : (n : ℕ) → pos 0 *ℤ n ≡ pos 0
unfolding ◌*ℤ◌
zero-*ℤ n = ground arith

pub *ℤ-zero : (a : ℤ) → a *ℤ 0 ≡ pos 0
unfolding ◌*ℤ◌
*ℤ-zero a = ground arith

pub is_nonzero-false : (a : ℤ) → is_nonzero a ≡ false → a ≡ pos 0
unfolding is_nonzero
is_nonzero-false (pos zero) h = refl
is_nonzero-false (pos (suc n)) h = cc
is_nonzero-false (negsuc n) h = cc

module _ {ℓ} {A : Type ℓ} where
  -- `sum(f(x) for x in xs)`
  abbrev pub sum_ℤ : (A → ℤ) → List A → ℤ
  sum_ℤ f [] = pos 0
  sum_ℤ f (x ∷ xs) = f x +ℤ sum_ℤ f xs

  pub sum_ℤ-append : (f : A → ℤ) (xs ys : List A) → sum_ℤ f (xs ++ ys) ≡ sum_ℤ f xs +ℤ sum_ℤ f ys
  sum_ℤ-append f [] ys = omega int_laws
  sum_ℤ-append f (x ∷ xs) ys = rw (sum_ℤ-append f xs ys) (omega int_laws)

-- n / d to the nearest whole number, half up. The source divides by nothing that is zero.
unfoldable pub half_up : ℕ → ℕ → ℕ
half_up n d = (2 * n + d) / (2 * d)

-- The same of a signed numerator: ROUND_HALF_UP rounds a half away from zero.
unfoldable pub round_half_up : ℤ → ℕ → ℤ
unfolding half_up
round_half_up (pos n) d = pos (half_up n d)
round_half_up (negsuc n) d = pos 0 -ℤ pos (half_up (suc n) d)

-- The rounded quotient is within half of the true one, and a half goes up.
pub half_up_bounds :
    (n d : ℕ)
    → 0 < d
    → (2 * d * half_up n d ≤ 2 * n + d) × (2 * n + d < 2 * d * half_up n d + 2 * d)
unfolding half_up
half_up_bounds n d h = (grind arith, grind arith)

-- Whole hundredths stay as they are.
pub half_up-mul : (n d : ℕ) → 0 < d → half_up (n * d) d ≡ n
half_up-mul n d h = grind (arith, half_up_bounds (n * d) d h)

pub half_up-one : (n : ℕ) → half_up n 1 ≡ n
unfolding half_up
half_up-one n = omega arith

pub round_half_up-one : (a : ℤ) → round_half_up a 1 ≡ a
unfolding round_half_up half_up ◌-ℤ◌
round_half_up-one (pos n) = ap pos (half_up-one n)
round_half_up-one (negsuc n) = ground (arith, half_up-one (suc n))

pub pos-*ℤ : (a n : ℕ) → pos a *ℤ n ≡ pos (a * n)
unfolding ◌*ℤ◌
pos-*ℤ a n = ground arith

pub round_half_up-pos : (n d : ℕ) → round_half_up (pos n) d ≡ pos (half_up n d)
unfolding round_half_up
round_half_up-pos n d = refl

pub add_zero : (a : ℤ) → a +ℤ pos 0 ≡ a
add_zero a = omega int_laws

pub zero_add : (a : ℤ) → pos 0 +ℤ a ≡ a
zero_add a = omega int_laws
