-- ===== src/Concentrated/U512/Exactness.antt =====
-- `mul_div_floor` and `mul_div_ceil` against the quotient of the unbounded product.
use native.Mathlib.Nat.{mul-le-mul}
use soroban_amm.Prelude.{
  ℕ, ◌+◌, ◌-◌, ◌*◌, ◌/◌, ◌%◌, ◌^◌, ◌≤◌, ◌<◌, ◌≡◌, ◌&&◌, ◌||◌, Bool, true, false, not, inl, inr, sym,
  ap, arith, ◌==◌, if◌then◌else◌, Bool-cases,
}
use soroban_amm.Prelude.Arith.{div_bounds, ceil-le_of, le-div_of}
use soroban_amm.Host.{Math, ok, ◌>>=◌}
use soroban_amm.Concentrated.U512.{
  u512_div_bytes, u512_div_bits, rounded, mul_div_internal, mul_div_floor, mul_div_ceil,
}
use soroban_amm.Concentrated.U512.Product.{u256_full_mul_lem}
use soroban_amm.Concentrated.U512.Division.{u512_div_bytes_lem, u512_div_bits_lem}

-- What is added to the quotient when rounding up.
abbrev pub extra : Bool → ℕ → ℕ
extra round_up remainder = if round_up && not (remainder == 0) then 1 else 0

recombine : (p : ℕ) → p / 2 ^ 256 * 2 ^ 256 + p % 2 ^ 256 ≡ p
recombine p = omega arith

high_fits : (a b : ℕ) → a < 2 ^ 256 → b < 2 ^ 256 → a * b / 2 ^ 256 < 2 ^ 256
high_fits a b ha hb =
    let le : a * b ≤ (2 ^ 256 - 1) * (2 ^ 256 - 1) =
      mul-le-mul {n₂ = 2 ^ 256 - 1} {m₂ = 2 ^ 256 - 1} (omega arith) (omega arith) in
    omega arith

high-lt : (p d : ℕ) → 0 < d → p / d < 2 ^ 256 → p / 2 ^ 256 < d
high-lt p d pos h = grind (arith, div_bounds p d)

product_zero : (a b : ℕ) → a == 0 || b == 0 ≡ true → a * b ≡ 0
product_zero a b h = ground arith

quotient_zero : (p d : ℕ) (up : Bool) → 0 < d → p ≡ 0 → p / d + extra up (p % d) ≡ 0
quotient_zero p d up pos h =
    let quotient : 0 / d ≡ 0 = omega (arith, div_bounds 0 d pos) in
    let remainder : 0 % d ≡ 0 = omega (arith, div_bounds 0 d pos) in
    rw (h, quotient, remainder) ground arith

module _ ⦃m : Math⦄ where
  rounded_lem :
      (up : Bool) (q r : ℕ) → q + extra up r < 2 ^ 256 → rounded up q r ≡ ok (q + extra up r)
  unfolding rounded
  rounded_lem up q r h = ground (arith, m.add_lem q 1)

  -- Both paths of the division, for a quotient that fits.
  parts :
      (a b d : ℕ)
      → a < 2 ^ 256
      → b < 2 ^ 256
      → 0 < d
      → d < 2 ^ 256
      → a * b / d < 2 ^ 256
      → (if m.shr d 248 == 0
          then u512_div_bytes (a * b / 2 ^ 256) (a * b % 2 ^ 256) d
          else u512_div_bits (a * b / 2 ^ 256) (a * b % 2 ^ 256) d)
        ≡ ok (a * b / d, a * b % d)
  parts a b d ha hb pos small fits =
      let p = a * b in
      let shifted : m.shr d 248 ≡ d / 2 ^ 248 = m.shr_lem d 248 (omega arith) in
      let hi_small : p / 2 ^ 256 < 2 ^ 256 = high_fits a b ha hb in
      let whole = recombine p in
      let kept : p / d % 2 ^ 256 ≡ p / d = omega arith in
      elim (Bool-cases (m.shr d 248 == 0)) [
        | inl bytes ↦
            let low : d < 2 ^ 248 = ground arith in
            let run : u512_div_bytes (p / 2 ^ 256) (p % 2 ^ 256) d ≡ ok (p / d, p % d) =
              (rw (whole, kept) at
                (u512_div_bytes_lem (p / 2 ^ 256) (p % 2 ^ 256) d pos low hi_small
                  (omega arith))) in
            rw bytes run
        | inr bits ↦
            let run : u512_div_bits (p / 2 ^ 256) (p % 2 ^ 256) d ≡ ok (p / d, p % d) =
              (rw (whole, kept) at
                (u512_div_bits_lem (p / 2 ^ 256) (p % 2 ^ 256) d pos small (high-lt p d pos fits)
                  (omega arith))) in
            rw bits run
      ]

  -- The two paths, by whether both factors are `u128`s.
  small_product : (a b : ℕ) → a / 2 ^ 128 ≡ 0 → b / 2 ^ 128 ≡ 0 → a * b < 2 ^ 256
  small_product a b ha hb =
      let le : a * b ≤ (2 ^ 128 - 1) * (2 ^ 128 - 1) =
        mul-le-mul {n₂ = 2 ^ 128 - 1} {m₂ = 2 ^ 128 - 1} (omega arith) (omega arith) in
      omega arith

  fast_lem :
      (a b d : ℕ) (up : Bool)
      → 0 < d
      → a * b < 2 ^ 256
      → a * b / d + extra up (a * b % d) < 2 ^ 256
      → (do
        product ← m.mul a b
        quotient ← m.div product d
        remainder ← m.rem product d
        rounded up quotient remainder)
        ≡ ok (a * b / d + extra up (a * b % d))
  fast_lem a b d up pos small fits =
      let product : m.mul a b ≡ ok (a * b) = ground (arith, m.mul_lem a b) in
      let quotient : m.div (a * b) d ≡ ok (a * b / d) = ground (arith, m.div_lem (a * b) d) in
      let remainder : m.rem (a * b) d ≡ ok (a * b % d) = ground (arith, m.rem_lem (a * b) d) in
      let run = rounded_lem up (a * b / d) (a * b % d) fits in rw (product, quotient, remainder) run

  mul_div_lem :
      (a b d : ℕ) (up : Bool)
      → a < 2 ^ 256
      → b < 2 ^ 256
      → 0 < d
      → d < 2 ^ 256
      → a * b / d + extra up (a * b % d) < 2 ^ 256
      → mul_div_internal a b d up ≡ ok (a * b / d + extra up (a * b % d))
  unfolding mul_div_internal
  mul_div_lem a b d up ha hb pos small fits =
      let shift_a : m.shr a 128 ≡ a / 2 ^ 128 = m.shr_lem a 128 (omega arith) in
      let shift_b : m.shr b 128 ≡ b / 2 ^ 128 = m.shr_lem b 128 (omega arith) in
      elim (Bool-cases (a == 0 || b == 0)) [
        | inl zero_factor ↦
            let none : a * b ≡ 0 = product_zero a b zero_factor in
            let result : ok 0 ≡ ok (a * b / d + extra up (a * b % d)) =
              ap ok (sym (quotient_zero (a * b) d up pos none)) in
            rw (mul_div_internal, zero_factor) result
        | inr nonzero ↦ elim (Bool-cases (m.shr a 128 == 0 && m.shr b 128 == 0)) [
          | inl fast ↦
              let low_a : a / 2 ^ 128 ≡ 0 = ground arith in
              let low_b : b / 2 ^ 128 ≡ 0 = ground arith in
              let run = fast_lem a b d up pos (small_product a b low_a low_b) fits in
              rw (mul_div_internal, nonzero, fast) run
          | inr slow ↦
              let product = u256_full_mul_lem a b ha hb in
              let division = parts a b d ha hb pos small (omega arith) in
              let run = rounded_lem up (a * b / d) (a * b % d) fits in
              rw (mul_div_internal, nonzero, slow, product, division) run
        ]
      ]

pub ceil_quotient_lem : (p d : ℕ) → 0 < d → p / d + extra true (p % d) ≡ (p + (d - 1)) / d
ceil_quotient_lem p d pos =
    let q = p / d in
    let split : p ≡ q * d + p % d = omega (arith, div_bounds p d pos) in
    elim (Bool-cases (p % d == 0)) [
      | inl even ↦
          let none : p % d ≡ 0 = ground arith in
          let up : (p + (d - 1)) / d ≤ q = ceil-le_of p d q pos (omega arith) in
          let down : q ≤ (p + (d - 1)) / d = le-div_of (p + (d - 1)) d q pos (omega arith) in
          rw even (omega arith)
      | inr odd ↦
          let some_left : 0 < p % d = ground arith in
          let (low, high) = div_bounds p d pos in
          let up : (p + (d - 1)) / d ≤ q + 1 = ceil-le_of p d (q + 1) pos (omega arith) in
          let down : q + 1 ≤ (p + (d - 1)) / d =
            le-div_of (p + (d - 1)) d (q + 1) pos (omega arith) in
          rw odd (omega arith)
    ]

module _ ⦃m : Math⦄ where
  -- For 256-bit factors and a positive 256-bit divisor, if the quotient of the unbounded product
  -- rounded down is below 2 ^ 256, `mul_div_floor` succeeds with exactly that quotient, although the
  -- product itself may take 512 bits.
  pub mul_div_floor-exact :
      (a b d : ℕ)
      → a < 2 ^ 256
      → b < 2 ^ 256
      → 0 < d
      → d < 2 ^ 256
      → a * b / d < 2 ^ 256
      → mul_div_floor a b d ≡ ok (a * b / d)
  unfolding mul_div_floor
  mul_div_floor-exact a b d ha hb pos small fits =
      let e : a * b / d + 0 ≡ a * b / d = omega arith in
      let run = mul_div_lem a b d false ha hb pos small (rw e fits) in rw e at run

  -- For 256-bit factors and a positive 256-bit divisor, if the quotient of the unbounded product
  -- rounded up is below 2 ^ 256, `mul_div_ceil` succeeds with exactly that quotient.
  pub mul_div_ceil-exact :
      (a b d : ℕ)
      → a < 2 ^ 256
      → b < 2 ^ 256
      → 0 < d
      → d < 2 ^ 256
      → (a * b + (d - 1)) / d < 2 ^ 256
      → mul_div_ceil a b d ≡ ok ((a * b + (d - 1)) / d)
  unfolding mul_div_ceil
  mul_div_ceil-exact a b d ha hb pos small fits =
      let e = ceil_quotient_lem (a * b) d pos in
      let run = mul_div_lem a b d true ha hb pos small (rw e fits) in rw e at run
