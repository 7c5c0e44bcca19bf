-- ===== src/Concentrated/Math/Prices.antt =====
-- liquidity_pool_concentrated/src/math.rs: the price after an amount goes in.
use native.Mathlib.Nat.{mul-le-mul}
use soroban_amm.Prelude.{
  ℕ, ◌+◌, ◌-◌, ◌*◌, ◌/◌, ◌^◌, ◌≤◌, ◌<◌, ◌≡◌, true, ap, arith, leb, ◌==◌, sym, inl, inr, Bool-cases,
}
use soroban_amm.Prelude.Arith.{le-div_of, div-le_of, ceil-le_of}
use soroban_amm.Host.{Math, ok}
use soroban_amm.Concentrated.U512.{max_u256}
use soroban_amm.Concentrated.U512.Exactness.{mul_div_floor-exact, mul_div_ceil-exact}
use soroban_amm.Concentrated.Math.{
  price_after_in0, get_next_sqrt_price_from_amount0, get_next_sqrt_price_from_amount1,
}
use soroban_amm.Concentrated.Math.Deltas.{quotient, shl_96}

-- The exact prices: rounded up when the price falls, down when it rises.
abbrev pub price_in0 : ℕ → ℕ → ℕ → ℕ
price_in0 price liquidity amount =
    quotient true (liquidity * 2 ^ 96 * price) (liquidity * 2 ^ 96 + amount * price)

abbrev pub price_in1 : ℕ → ℕ → ℕ → ℕ
price_in1 price liquidity amount = price + amount * 2 ^ 96 / liquidity

pub price_in0-le :
    (price liquidity amount : ℕ) → 0 < liquidity → price_in0 price liquidity amount ≤ price
price_in0-le price liquidity amount pos =
    ceil-le_of (liquidity * 2 ^ 96 * price) (liquidity * 2 ^ 96 + amount * price) price
      (omega arith) (omega arith)

antisym : (a b : ℕ) → a ≤ b → b ≤ a → a ≡ b
antisym a b h k = omega arith

add_none : (n price : ℕ) → n + 0 * price ≡ n
add_none n price = omega arith

ceil-mul : (n price : ℕ) → 0 < n → quotient true (n * price) (n + 0 * price) ≡ price
ceil-mul n price pos =
    let e : quotient true (n * price) n ≡ price =
      antisym (quotient true (n * price) n) price (ceil-le_of (n * price) n price pos (omega arith))
        (le-div_of (n * price + (n - 1)) n price pos (omega arith)) in
    rw (add_none n price) e

in1_fits : (amount liquidity : ℕ) → 0 < liquidity → amount * 2 ^ 96 / liquidity ≤ amount * 2 ^ 96
in1_fits amount liquidity pos =
    let le : amount * 2 ^ 96 * 1 ≤ amount * 2 ^ 96 * liquidity =
      mul-le-mul {n₂ = amount * 2 ^ 96} {m₂ = liquidity} (omega arith) pos in
    div-le_of (amount * 2 ^ 96) liquidity (amount * 2 ^ 96) pos (omega arith)

module _ ⦃m : Math⦄ where
  pub price_in1_lem :
      (price liquidity amount : ℕ)
      → price < 2 ^ 160
      → 0 < liquidity
      → liquidity < 2 ^ 128
      → amount < 2 ^ 128
      → get_next_sqrt_price_from_amount1 price liquidity amount true
        ≡ ok (price_in1 price liquidity amount)
  unfolding get_next_sqrt_price_from_amount1
  price_in1_lem price liquidity amount small pos fits fits' =
      let le = in1_fits amount liquidity pos in
      let run =
        mul_div_floor-exact amount (2 ^ 96) liquidity (omega arith) (omega arith) pos (omega arith)
          (omega arith) in
      rw (get_next_sqrt_price_from_amount1, shl_96, run) ground
        (arith, m.add_lem price (amount * 2 ^ 96 / liquidity))

  after_in0_lem :
      (n price amount t : ℕ)
      → 0 < n
      → 0 < price
      → price < 2 ^ 256
      → n + amount * price < 2 ^ 256
      → leb amount t ≡ true
      → price_after_in0 n price amount t ≡ ok (quotient true (n * price) (n + amount * price))
  unfolding price_after_in0
  after_in0_lem n price amount t posn pos small fits low =
      let product : m.mul amount price ≡ ok (amount * price) =
        ground (arith, m.mul_lem amount price) in
      let sum : m.add n (amount * price) ≡ ok (n + amount * price) =
        ground (arith, m.add_lem n (amount * price)) in
      let le : quotient true (n * price) (n + amount * price) ≤ price =
        ceil-le_of (n * price) (n + amount * price) price (omega arith) (omega arith) in
      let run =
        mul_div_ceil-exact n price (n + amount * price) (omega arith) small (omega arith) fits
          (omega arith) in
      rw (price_after_in0, low, product, sum) run

  pub price_in0_lem :
      (price liquidity amount : ℕ)
      → 0 < price
      → price < 2 ^ 160
      → 0 < liquidity
      → liquidity < 2 ^ 128
      → liquidity * 2 ^ 96 + amount * price < 2 ^ 256
      → get_next_sqrt_price_from_amount0 price liquidity amount true
        ≡ ok (price_in0 price liquidity amount)
  unfolding get_next_sqrt_price_from_amount0
  price_in0_lem price liquidity amount pos small posl fits room =
      let n = liquidity * 2 ^ 96 in
      let product : m.mul liquidity (2 ^ 96) ≡ ok n =
        ground (arith, m.mul_lem liquidity (2 ^ 96)) in
      let threshold : m.div max_u256 price ≡ ok (max_u256 / price) =
        ground (arith, m.div_lem max_u256 price) in
      let low : leb amount (max_u256 / price) ≡ true =
        ground (arith, le-div_of max_u256 price amount pos (omega arith)) in
      let run =
        after_in0_lem n price amount (max_u256 / price) (omega arith) pos (omega arith) room low in
      elim (Bool-cases (amount == 0)) [
        | inl zero ↦
            let none : amount ≡ 0 = ground arith in
            let whole : price_in0 price liquidity 0 ≡ price = ceil-mul n price (omega arith) in
            let unmoved : get_next_sqrt_price_from_amount0 price liquidity 0 true
                ≡ ok (price_in0 price liquidity 0) =
              ap ok (sym whole) in
            rw none unmoved
        | inr nonzero ↦
            rw (get_next_sqrt_price_from_amount0, nonzero, shl_96, product, threshold) run
      ]
