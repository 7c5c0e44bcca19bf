-- ===== src/Prelude/Arith.antt =====
-- Facts on products and quotients of native numbers that linear arithmetic does not find.
use Prim.Native.Nat.{ℕ, zero, suc, ◌+◌, ◌-◌, ◌*◌, ◌/◌, ◌≤◌, ◌<◌}
use mathlib.Core.Path.{◌≡◌}
use mathlib.Core.Logic.{inl, inr, ◌⊎◌}
use native.Mathlib.Omega.{arith}
use native.Mathlib.Nat.{mul-le-mul}

-- A quotient lies below its dividend by less than one divisor.
pub div_bounds : (a b : ℕ) → 0 < b → ((a / b) * b ≤ a) × (a < (a / b) * b + b)
div_bounds a b h = grind arith

pub div-le_of : (a b c : ℕ) → 0 < b → a ≤ c * b → a / b ≤ c
div-le_of a b c h k = grind arith

pub le-div_of : (a b c : ℕ) → 0 < b → c * b ≤ a → c ≤ a / b
le-div_of a b c h k = grind arith

pub le_or_ge : (a b : ℕ) → (a ≤ b) ⊎ (b ≤ a)
le_or_ge a b = grind arith

four_mul_add : (a b d : ℕ) → b ≡ a + d → 4 * (a * b) ≤ (a + b) * (a + b)
four_mul_add a b d e = rw e (omega arith)

-- Of two factors the square of the mean is the largest product.
pub four_mul-le-square : (a b : ℕ) → 4 * (a * b) ≤ (a + b) * (a + b)
four_mul-le-square a b = elim (le_or_ge a b) [
  | inl h ↦ four_mul_add a b (b - a) (omega arith)
  | inr h ↦ omega (arith, four_mul_add b a (a - b) (omega arith))
]

pub square_mono : (a b : ℕ) → a ≤ b → a * a ≤ b * b
square_mono a b h = mul-le-mul h h

pub lt_of_square-lt : (a b : ℕ) → a * a < b * b → a < b
lt_of_square-lt a b h = grind (arith, square_mono b a)

-- A sum of two positive numbers exceeds their product by one at most.
pub add-le-mul_add_one : (a b : ℕ) → 0 < a → 0 < b → a + b ≤ a * b + 1
add-le-mul_add_one zero b ha hb = omega arith
add-le-mul_add_one (suc a) zero ha hb = omega arith
add-le-mul_add_one (suc a) (suc b) ha hb = omega arith

-- A quotient rounded up is the least number whose product with the divisor reaches the dividend.
pub le-ceil_mul : (a b : ℕ) → 0 < b → a ≤ (a + (b - 1)) / b * b
le-ceil_mul a b h = omega (arith, div_bounds (a + (b - 1)) b h)

pub ceil-le_of : (a b c : ℕ) → 0 < b → a ≤ c * b → (a + (b - 1)) / b ≤ c
ceil-le_of a b c h k = grind (arith, div_bounds (a + (b - 1)) b h)

keeps_add : (r x b o k : ℕ) → b ≡ o + k → o * (r + x) ≤ x * b → r * b ≤ (r + x) * k
keeps_add r x b o k e h = let h' : o * (r + x) ≤ x * (o + k) = rw e at h in rw e (omega arith)

mul-le_add : (r x b o k : ℕ) → b ≡ o + k → r * b ≤ (r + x) * k → o * (r + x) ≤ x * b
mul-le_add r x b o k e h = let h' : r * (o + k) ≤ (r + x) * k = rw e at h in rw e (omega arith)

-- The product of two reserves, when `x` goes into the first and `o` comes out of the second.
pub keeps_of_mul-le : (r x b o : ℕ) → o ≤ b → o * (r + x) ≤ x * b → r * b ≤ (r + x) * (b - o)
keeps_of_mul-le r x b o le h =
    let e : b ≡ o + (b - o) = omega arith in keeps_add r x b o (b - o) e h

pub mul-le_of_keeps : (r x b o : ℕ) → o ≤ b → r * b ≤ (r + x) * (b - o) → o * (r + x) ≤ x * b
mul-le_of_keeps r x b o le h =
    let e : b ≡ o + (b - o) = omega arith in mul-le_add r x b o (b - o) e h

keeps_add_left : (r x b o k : ℕ) → b ≡ o + k → r * o ≤ x * k → r * b ≤ (r + x) * k
keeps_add_left r x b o k e h = rw e (omega arith)

left_of_add : (r x b o k : ℕ) → b ≡ o + k → r * b ≤ (r + x) * k → r * o ≤ x * k
left_of_add r x b o k e h = let h' : r * (o + k) ≤ (r + x) * k = rw e at h in omega arith

pub keeps_of_left : (r x b o : ℕ) → o ≤ b → r * o ≤ x * (b - o) → r * b ≤ (r + x) * (b - o)
keeps_of_left r x b o le h = keeps_add_left r x b o (b - o) (omega arith) h

pub left_of_keeps : (r x b o : ℕ) → o ≤ b → r * b ≤ (r + x) * (b - o) → r * o ≤ x * (b - o)
left_of_keeps r x b o le h = left_of_add r x b o (b - o) (omega arith) h

pub mul-le_of_le-div : (a b c : ℕ) → 0 < b → c ≤ a / b → c * b ≤ a
mul-le_of_le-div a b c h k = grind arith
