-- ===== src/Concentrated/Math/Deltas.antt =====
-- liquidity_pool_concentrated/src/math.rs: the amounts between two prices.
use native.Mathlib.Nat.{mul-le-mul, div-div-eq-div-mul}
use soroban_amm.Prelude.{
  ℕ, ◌+◌, ◌-◌, ◌*◌, ◌/◌, ◌%◌, ◌^◌, ◌≤◌, ◌<◌, ◌≡◌, Bool, true, false, ap, arith, ◌==◌, if◌then◌else◌,
  some, ◌∙◌,
}
use soroban_amm.Prelude.Arith.{ceil-le_of, le-ceil_mul, div-le_of}
use soroban_amm.Host.{Math, ok}
use soroban_amm.Concentrated.U512.Exactness.{
  extra, ceil_quotient_lem, mul_div_floor-exact, mul_div_ceil-exact,
}
use soroban_amm.Concentrated.Math.{
  u256_div_round_up, mul_div_rounded, div_rounded, amount0_delta_u256, amount1_delta_u256, ordered,
}

-- A quotient, rounded up or down.
abbrev pub quotient : Bool → ℕ → ℕ → ℕ
quotient up n d = if up then (n + (d - 1)) / d else n / d

antisym : (a b : ℕ) → a ≤ b → b ≤ a → a ≡ b
antisym a b h k = omega arith

-- Two roundings up in a row are one.
ceil-ceil :
    (n a b : ℕ) → 0 < a → 0 < b → quotient true (quotient true n b) a ≡ quotient true n (b * a)
ceil-ceil n a b pa pb =
    let u = quotient true n b in
    let c = quotient true u a in
    let k = quotient true n (b * a) in
    let pab : 1 * 1 ≤ b * a = mul-le-mul {n₂ = b} {m₂ = a} pb pa in
    let up : u ≤ c * a = le-ceil_mul u a pa in
    let low : n ≤ u * b = le-ceil_mul n b pb in
    let mono : u * b ≤ c * a * b = mul-le-mul {n₂ = c * a} {m₂ = b} up (omega arith) in
    let reach : n ≤ k * (b * a) = le-ceil_mul n (b * a) (omega arith) in
    let u_le : u ≤ k * a = ceil-le_of n b (k * a) pb (omega arith) in
    antisym c k (ceil-le_of u a k pa u_le) (ceil-le_of n (b * a) c (omega arith) (omega arith))

quotient-quotient :
    (up : Bool) (n a b : ℕ)
    → 0 < a
    → 0 < b
    → quotient up (quotient up n b) a ≡ quotient up n (b * a)
quotient-quotient true n a b pa pb = ceil-ceil n a b pa pb
quotient-quotient false n a b pa pb = div-div-eq-div-mul n b a

-- A quotient by at least the second factor is at most the first factor.
pub quotient-le : (up : Bool) (x y d : ℕ) → 0 < d → y ≤ d → quotient up (x * y) d ≤ x
quotient-le true x y d pos h =
    ceil-le_of (x * y) d x pos (mul-le-mul {n₂ = x} {m₂ = d} (omega arith) h)
quotient-le false x y d pos h =
    div-le_of (x * y) d x pos (mul-le-mul {n₂ = x} {m₂ = d} (omega arith) h)

pub ordered_lem : (a b : ℕ) → a ≤ b → ordered a b ≡ (a, b)
unfolding ordered
ordered_lem a b h = ground arith

next_fits : (n d : ℕ) → 0 < d → n < 2 ^ 256 → n / d + extra true (n % d) < 2 ^ 256
next_fits n d pos h =
    let e = ceil_quotient_lem n d pos in
    let le : n * 1 ≤ n * d = mul-le-mul {n₂ = n} {m₂ = d} (omega arith) pos in
    let le' : (n + (d - 1)) / d ≤ n = ceil-le_of n d n pos (omega arith) in omega arith

product_le : (x y : ℕ) → x < 2 ^ 128 → y < 2 ^ 160 → x * y ≤ (2 ^ 128 - 1) * (2 ^ 160 - 1)
product_le x y p q = mul-le-mul {n₂ = 2 ^ 128 - 1} {m₂ = 2 ^ 160 - 1} (omega arith) (omega arith)

quotient-lt : (up : Bool) (n : ℕ) → n < 2 ^ 300 → quotient up n (2 ^ 96) < 2 ^ 256
quotient-lt true n h = omega arith
quotient-lt false n h = omega arith

module _ ⦃m : Math⦄ where
  pub shl_96 : m.shl 1 96 ≡ 2 ^ 96
  shl_96 = omega (arith, m.shl_lem 1 96 (omega arith))

  pub shl_128 : m.shl 1 128 ≡ 2 ^ 128
  shl_128 = omega (arith, m.shl_lem 1 128 (omega arith))

  pub mul_div_rounded_lem :
      (up : Bool) (a b d : ℕ)
      → a < 2 ^ 256
      → b < 2 ^ 256
      → 0 < d
      → d < 2 ^ 256
      → quotient up (a * b) d < 2 ^ 256
      → mul_div_rounded up a b d ≡ ok (quotient up (a * b) d)
  unfolding mul_div_rounded
  mul_div_rounded_lem true a b d ha hb pos small fits =
      mul_div_ceil-exact a b d ha hb pos small fits
  mul_div_rounded_lem false a b d ha hb pos small fits =
      mul_div_floor-exact a b d ha hb pos small fits

  div_round_up_lem :
      (n d : ℕ) → 0 < d → n < 2 ^ 256 → u256_div_round_up n d ≡ ok (n / d + extra true (n % d))
  unfolding u256_div_round_up
  div_round_up_lem n d pos h =
      let fits = next_fits n d pos h in
      ground (arith, m.div_lem n d, m.rem_lem n d, m.add_lem (n / d) 1)

  pub div_rounded_lem :
      (up : Bool) (n d : ℕ) → 0 < d → n < 2 ^ 256 → div_rounded up n d ≡ ok (quotient up n d)
  unfolding div_rounded
  div_rounded_lem true n d pos h = div_round_up_lem n d pos h ∙ ap ok (ceil_quotient_lem n d pos)
  div_rounded_lem false n d pos h = ground (arith, m.div_lem n d)

  -- Between two prices of up to 160 bits, at a liquidity of 128 bits.
  pub amount1_lem :
      (a b liquidity : ℕ) (up : Bool)
      → a ≤ b
      → b < 2 ^ 160
      → 0 < liquidity
      → liquidity < 2 ^ 128
      → amount1_delta_u256 a b liquidity up ≡ ok (quotient up (liquidity * (b - a)) (2 ^ 96))
  unfolding amount1_delta_u256
  amount1_lem a b liquidity up h small pos fits =
      let nonzero : liquidity == 0 ≡ false = ground arith in
      let order = ordered_lem a b h in
      let diff : m.sub b a ≡ ok (b - a) = ground (arith, m.sub_lem b a) in
      let le = product_le liquidity (b - a) (omega arith) (omega arith) in
      let run =
        mul_div_rounded_lem up liquidity (b - a) (2 ^ 96) (omega arith) (omega arith) (omega arith)
          (omega arith) (quotient-lt up (liquidity * (b - a)) (omega arith)) in
      rw (amount1_delta_u256, nonzero, order, diff, shl_96) run

  -- For two positive prices of at most 160 bits in ascending order and a positive 128-bit liquidity,
  -- the amount of token 0 between them is computed, in two divisions, as the single quotient
  -- `liquidity * 2 ^ 96 * (b - a) / (a * b)` of the unbounded product, rounded down, or rounded up
  -- where the caller asks for it.
  pub amount0_delta_u256-exact :
      (a b liquidity : ℕ) (up : Bool)
      → 0 < a
      → a ≤ b
      → b < 2 ^ 160
      → 0 < liquidity
      → liquidity < 2 ^ 128
      → amount0_delta_u256 a b liquidity up
        ≡ ok (some (quotient up (liquidity * 2 ^ 96 * (b - a)) (b * a)))
  unfolding amount0_delta_u256
  amount0_delta_u256-exact a b liquidity up low h small pos fits =
      let nonzero : liquidity == 0 ≡ false = ground arith in
      let positive : a == 0 ≡ false = ground arith in
      let order = ordered_lem a b h in
      let diff : m.sub b a ≡ ok (b - a) = ground (arith, m.sub_lem b a) in
      let n = liquidity * 2 ^ 96 in
      let product : m.mul liquidity (2 ^ 96) ≡ ok n =
        ground (arith, m.mul_lem liquidity (2 ^ 96)) in
      let le : quotient up (n * (b - a)) b ≤ n =
        quotient-le up n (b - a) b (omega arith) (omega arith) in
      let first =
        mul_div_rounded_lem up n (b - a) b (omega arith) (omega arith) (omega arith) (omega arith)
          (omega arith) in
      let second = div_rounded_lem up (quotient up (n * (b - a)) b) a low (omega arith) in
      let whole = ap ok (ap some (quotient-quotient up (n * (b - a)) a b low (omega arith))) in
      rw (amount0_delta_u256, nonzero, order, positive, order, diff, shl_96, product, first, second)
        whole
