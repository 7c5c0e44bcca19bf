-- ===== src/Host/Exact.antt =====
-- The arithmetic interface filled by the functions that its laws name, for tests.
use native.Mathlib.Nat.{mul-le-mul}
use soroban_amm.Prelude.{
  ℕ, zero, suc, ◌+◌, ◌-◌, ◌*◌, ◌/◌, ◌%◌, ◌^◌, ◌≤◌, ◌<◌, ◌≡◌, ◌∙◌, ap, List, [], ◌∷◌, length, All,
  arith, refl,
}
use soroban_amm.Prelude.Arith.{div-le_of}
use soroban_amm.Host.Errors.{Result, ok, ◌>>=◌}
use soroban_amm.Host.Numbers.{
  Math, fit, sub_checked, div_checked, rem_checked, floor_quotient, ceil_quotient, IsByte,
  from_be_bytes,
}

-- The bytes of a number, `k` of them, in front of `bytes`.
unfoldable pub bytes_before : ℕ → ℕ → List ℕ → List ℕ
bytes_before zero a bytes = bytes
bytes_before (suc k) a bytes = bytes_before k (a / 256) (a % 256 ∷ bytes)

bytes_before-length : (k a : ℕ) (bs : List ℕ) → length (bytes_before k a bs) ≡ k + length bs
unfolding bytes_before
bytes_before-length zero a bs = omega arith
bytes_before-length (suc k) a bs = omega (arith, bytes_before-length k (a / 256) (a % 256 ∷ bs))

bytes_before-IsByte : (k a : ℕ) (bs : List ℕ) → All IsByte bs → All IsByte (bytes_before k a bs)
unfolding bytes_before
bytes_before-IsByte zero a bs h = h
bytes_before-IsByte (suc k) a bs h = bytes_before-IsByte k (a / 256) (a % 256 ∷ bs) (omega arith, h)

from-bytes_before :
    (k a : ℕ) (bs : List ℕ)
    → a < 256 ^ k
    → from_be_bytes 0 (bytes_before k a bs) ≡ from_be_bytes a bs
unfolding bytes_before from_be_bytes
from-bytes_before zero a bs h = ap (λ n. from_be_bytes n bs) (omega arith)
from-bytes_before (suc k) a bs h =
    from-bytes_before k (a / 256) (a % 256 ∷ bs) (omega arith)
    ∙ ap (λ n. from_be_bytes n bs) (omega arith)

unfoldable pub bytes_of : ℕ → List ℕ
unfolding bytes_before
bytes_of a = bytes_before 32 a []

div-le : (n d : ℕ) → 0 < d → n / d ≤ n
div-le n d pos =
    let h : n * 1 ≤ n * d = mul-le-mul {n₂ = n} {m₂ = d} (omega arith) (omega arith) in
    div-le_of n d n pos (omega arith)

-- The quotient of a product that traps where the product has more than 256 bits.
unfoldable pub quotient_u256 : ℕ → ℕ → ℕ → Result ℕ
quotient_u256 x y d = do product ← fit 256 (x * y); div_checked product d

pub quotient_u256_value :
    (x y d v : ℕ) → quotient_u256 x y d ≡ ok v → (0 < d) × (v ≡ x * y / d) × (v < 2 ^ 256)
unfolding quotient_u256
quotient_u256_value x y d v h =
    let e : v ≡ x * y / d = ground arith in
    let pos : 0 < d = ground arith in
    let small : x * y < 2 ^ 256 = ground arith in (pos, e, omega (arith, div-le (x * y) d pos))

-- The same, rounded up.
unfoldable pub quotient_up_u256 : ℕ → ℕ → ℕ → Result ℕ
quotient_up_u256 x y d = do
  product ← fit 256 (x * y)
  quotient ← div_checked (product + (d - 1)) d
  fit 256 quotient

pub quotient_up_u256_value :
    (x y d v : ℕ)
    → quotient_up_u256 x y d ≡ ok v
    → (0 < d) × (v ≡ (x * y + (d - 1)) / d) × (v < 2 ^ 256)
unfolding quotient_up_u256
quotient_up_u256_value x y d v h =
    let e : v ≡ (x * y + (d - 1)) / d = ground arith in
    let pos : 0 < d = ground arith in (pos, e, ground arith)

pub quotient_u256_lem : (x y d : ℕ) → 0 < d → x * y < 2 ^ 256 → quotient_u256 x y d ≡ ok (x * y / d)
unfolding quotient_u256
quotient_u256_lem x y d pos small = ground arith

pub bytes_of_lem :
    (a : ℕ)
    → a < 2 ^ 256
    → (length (bytes_of a) ≡ 32) × All IsByte (bytes_of a) × (from_be_bytes 0 (bytes_of a) ≡ a)
unfolding bytes_of from_be_bytes
bytes_of_lem a h =
    (bytes_before-length 32 a [], bytes_before-IsByte 32 a [] tt, from-bytes_before 32 a [] h)

abbrev pub exact : Math
exact = record {
  fixed_mul_floor = floor_quotient;
  fixed_mul_ceil = ceil_quotient;
  fixed_mul_floor_u256 = quotient_u256;
  fixed_mul_ceil_u256 = quotient_up_u256;
  add = λ a b. fit 256 (a + b);
  sub = sub_checked;
  mul = λ a b. fit 256 (a * b);
  div = div_checked;
  rem = rem_checked;
  shl = λ a k. a * 2 ^ k % 2 ^ 256;
  shr = λ a k. a / 2 ^ k;
  to_be_bytes = bytes_of;
  fixed_mul_floor_lem = λ x y d. refl;
  fixed_mul_ceil_lem = λ x y d. refl;
  fixed_mul_floor_u256_value = quotient_u256_value;
  fixed_mul_floor_u256_lem = quotient_u256_lem;
  fixed_mul_ceil_u256_value = quotient_up_u256_value;
  add_lem = λ a b. refl;
  sub_lem = λ a b. refl;
  mul_lem = λ a b. refl;
  div_lem = λ a b. refl;
  rem_lem = λ a b. refl;
  shl_lem = λ a k h. refl;
  shr_lem = λ a k h. refl;
  to_be_bytes_lem = bytes_of_lem;
}
