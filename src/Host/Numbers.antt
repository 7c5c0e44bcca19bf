-- ===== src/Host/Numbers.antt =====
-- Overflow-checked integers, and the two arithmetic interfaces that the contracts call and that
-- are not of this repository: `soroban_fixed_point_math` and the host's 256-bit integers.
use soroban_amm.Prelude.{
  ℕ, ◌+◌, ◌-◌, ◌*◌, ◌/◌, ◌%◌, ◌^◌, ◌<◌, ◌≡◌, List, [], ◌∷◌, length, All, ltb, leb, ◌==◌,
  if◌then◌else◌,
}
use soroban_amm.Host.Errors.{Result, ok, err, host, trap}

-- A value of `w` bits; a larger one is an overflow, which traps.
abbrev pub fit : ℕ → ℕ → Result ℕ
fit w n = if ltb n (2 ^ w) then ok n else err (host trap)

-- `-` on unsigned integers.
abbrev pub sub_checked : ℕ → ℕ → Result ℕ
sub_checked a b = if leb b a then ok (a - b) else err (host trap)

-- `/`, which traps at a zero divisor.
abbrev pub div_checked : ℕ → ℕ → Result ℕ
div_checked a b = if b == 0 then err (host trap) else ok (a / b)

abbrev pub rem_checked : ℕ → ℕ → Result ℕ
rem_checked a b = if b == 0 then err (host trap) else ok (a % b)

abbrev pub IsByte : ℕ → Type 0
IsByte b = b < 256

-- The number whose digits in base 256 are those of `acc` and then the bytes, the highest first.
unfoldable pub from_be_bytes : ℕ → List ℕ → ℕ
from_be_bytes acc [] = acc
from_be_bytes acc (b ∷ bs) = from_be_bytes (acc * 256 + b) bs

-- The quotient of a product, rounded down or up, when it exists and is a `u128`.
abbrev pub floor_quotient : ℕ → ℕ → ℕ → Result ℕ
floor_quotient x y d = if d == 0 then err (host trap) else fit 128 (x * y / d)

abbrev pub ceil_quotient : ℕ → ℕ → ℕ → Result ℕ
ceil_quotient x y d = if d == 0 then err (host trap) else fit 128 ((x * y + (d - 1)) / d)

-- What the contracts call of other packages, with the behaviour documented there: the fixed-point
-- products round as named, and every operation traps where its value does not exist or does not
-- fit (128 bits for the products, 256 for `U256`). The product of `U256` numbers may also trap where
-- it does not fit before it is divided. A shift to the left by less than 256 drops the
-- bits above; `to_be_bytes` gives 32 bytes, the highest first.
pub record Math : Type 0 where
  pub fixed_mul_floor : ℕ → ℕ → ℕ → Result ℕ
  pub fixed_mul_ceil : ℕ → ℕ → ℕ → Result ℕ
  pub fixed_mul_floor_u256 : ℕ → ℕ → ℕ → Result ℕ
  pub fixed_mul_ceil_u256 : ℕ → ℕ → ℕ → Result ℕ
  pub add : ℕ → ℕ → Result ℕ
  pub sub : ℕ → ℕ → Result ℕ
  pub mul : ℕ → ℕ → Result ℕ
  pub div : ℕ → ℕ → Result ℕ
  pub rem : ℕ → ℕ → Result ℕ
  pub shl : ℕ → ℕ → ℕ
  pub shr : ℕ → ℕ → ℕ
  pub to_be_bytes : ℕ → List ℕ
  pub fixed_mul_floor_lem : (x y d : ℕ) → fixed_mul_floor x y d ≡ floor_quotient x y d
  pub fixed_mul_ceil_lem : (x y d : ℕ) → fixed_mul_ceil x y d ≡ ceil_quotient x y d
  pub fixed_mul_floor_u256_value :
      (x y d v : ℕ) → fixed_mul_floor_u256 x y d ≡ ok v → (0 < d) × (v ≡ x * y / d) × (v < 2 ^ 256)
  pub fixed_mul_floor_u256_lem :
      (x y d : ℕ) → 0 < d → x * y < 2 ^ 256 → fixed_mul_floor_u256 x y d ≡ ok (x * y / d)
  pub fixed_mul_ceil_u256_value :
      (x y d v : ℕ)
      → fixed_mul_ceil_u256 x y d ≡ ok v
      → (0 < d) × (v ≡ (x * y + (d - 1)) / d) × (v < 2 ^ 256)
  pub add_lem : (a b : ℕ) → add a b ≡ fit 256 (a + b)
  pub sub_lem : (a b : ℕ) → sub a b ≡ sub_checked a b
  pub mul_lem : (a b : ℕ) → mul a b ≡ fit 256 (a * b)
  pub div_lem : (a b : ℕ) → div a b ≡ div_checked a b
  pub rem_lem : (a b : ℕ) → rem a b ≡ rem_checked a b
  pub shl_lem : (a k : ℕ) → k < 256 → shl a k ≡ a * 2 ^ k % 2 ^ 256
  pub shr_lem : (a k : ℕ) → k < 256 → shr a k ≡ a / 2 ^ k
  pub to_be_bytes_lem :
      (a : ℕ)
      → a < 2 ^ 256
      → (length (to_be_bytes a) ≡ 32)
        × All IsByte (to_be_bytes a)
        × (from_be_bytes 0 (to_be_bytes a) ≡ a)
