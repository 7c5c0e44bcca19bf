-- ===== src/Concentrated/Step.antt =====
-- liquidity_pool_concentrated/src/contract/internal.rs: one step of a swap, between two prices.
pub mod Amounts
pub mod Input
use soroban_amm.Prelude.{
  ℕ, ◌-◌, Bool, true, false, Option, none, some, ltb, leb, ◌==◌, if◌then◌else◌,
}
use soroban_amm.Host.{Math, Result, ok, ◌>>=◌, sub_checked}
use soroban_amm.Concentrated.Math.{
  mul_div_u128, amount0_delta, amount1_delta, try_amount0_delta, try_amount1_delta,
  get_next_sqrt_price_from_input, get_next_sqrt_price_from_output,
}

abbrev pub fee_denominator : ℕ
fee_denominator = 10000

pub record SwapStep : Type 0 where
  pub sqrt_next : ℕ
  pub amount_in : ℕ
  pub amount_out : ℕ
  pub fee_amount : ℕ

-- `target.map_or(false, |a| remaining >= a)`
unfoldable pub reaches : Option ℕ → ℕ → Bool
reaches none remaining = false
reaches (some a) remaining = leb a remaining

-- The price that was computed, not beyond the target.
unfoldable pub clamped : Bool → ℕ → ℕ → ℕ
clamped true computed target = if ltb computed target then target else computed
clamped false computed target = if ltb target computed then target else computed

module _ ⦃m : Math⦄ where
  -- What goes in between the current price and the next, rounded up.
  unfoldable pub amount_in_to : Bool → ℕ → ℕ → ℕ → Result ℕ
  amount_in_to true sqrt_current sqrt_next liquidity =
      amount0_delta sqrt_next sqrt_current liquidity true
  amount_in_to false sqrt_current sqrt_next liquidity =
      amount1_delta sqrt_current sqrt_next liquidity true

  -- What comes out, rounded down.
  unfoldable pub amount_out_to : Bool → ℕ → ℕ → ℕ → Result ℕ
  amount_out_to true sqrt_current sqrt_next liquidity =
      amount1_delta sqrt_next sqrt_current liquidity false
  amount_out_to false sqrt_current sqrt_next liquidity =
      amount0_delta sqrt_current sqrt_next liquidity false

  -- What the target needs of the input, and of the output.
  unfoldable pub try_amount_in_to : Bool → ℕ → ℕ → ℕ → Result (Option ℕ)
  try_amount_in_to true sqrt_current sqrt_target liquidity =
      try_amount0_delta sqrt_target sqrt_current liquidity true
  try_amount_in_to false sqrt_current sqrt_target liquidity =
      try_amount1_delta sqrt_current sqrt_target liquidity true

  unfoldable pub try_amount_out_to : Bool → ℕ → ℕ → ℕ → Result (Option ℕ)
  try_amount_out_to true sqrt_current sqrt_target liquidity =
      try_amount1_delta sqrt_target sqrt_current liquidity false
  try_amount_out_to false sqrt_current sqrt_target liquidity =
      try_amount0_delta sqrt_current sqrt_target liquidity false

  -- The next price: the target where the remaining amount reaches it. First with an exact input,
  -- then with an exact output.
  unfoldable pub price_towards_in : Bool → ℕ → ℕ → ℕ → ℕ → Option ℕ → Result ℕ
  price_towards_in zero_for_one sqrt_current sqrt_target liquidity remaining to_target =
      elim (reaches to_target remaining) [
        | true ↦ ok sqrt_target
        | false ↦ do
          computed ← get_next_sqrt_price_from_input sqrt_current liquidity remaining zero_for_one
          ok (clamped zero_for_one computed sqrt_target)
      ]

  unfoldable pub next_price_in : Bool → ℕ → ℕ → ℕ → ℕ → Result ℕ
  next_price_in zero_for_one sqrt_current sqrt_target liquidity remaining = do
    to_target ← try_amount_in_to zero_for_one sqrt_current sqrt_target liquidity
    price_towards_in zero_for_one sqrt_current sqrt_target liquidity remaining to_target

  unfoldable pub price_towards_out : Bool → ℕ → ℕ → ℕ → ℕ → Option ℕ → Result ℕ
  price_towards_out zero_for_one sqrt_current sqrt_target liquidity remaining to_target =
      elim (reaches to_target remaining) [
        | true ↦ ok sqrt_target
        | false ↦ do
          computed ← get_next_sqrt_price_from_output sqrt_current liquidity remaining zero_for_one
          ok (clamped zero_for_one computed sqrt_target)
      ]

  unfoldable pub next_price_out : Bool → ℕ → ℕ → ℕ → ℕ → Result ℕ
  next_price_out zero_for_one sqrt_current sqrt_target liquidity remaining = do
    to_target ← try_amount_out_to zero_for_one sqrt_current sqrt_target liquidity
    price_towards_out zero_for_one sqrt_current sqrt_target liquidity remaining to_target

  -- The fee of a step with an exact input: all that is left where the target is not reached.
  unfoldable pub fee_in : Bool → ℕ → ℕ → ℕ → ℕ → Result ℕ
  fee_in true amount_remaining amount_in fee fee_complement =
      mul_div_u128 amount_in fee fee_complement true
  fee_in false amount_remaining amount_in fee fee_complement = ok (amount_remaining - amount_in)

  -- `compute_swap_step` with an exact input.
  unfoldable pub step_in : Bool → ℕ → ℕ → ℕ → ℕ → ℕ → Result SwapStep
  step_in zero_for_one sqrt_current sqrt_target liquidity amount_remaining fee = do
    fee_complement ← sub_checked fee_denominator fee
    less_fee ← mul_div_u128 amount_remaining fee_complement fee_denominator false
    sqrt_next ← next_price_in zero_for_one sqrt_current sqrt_target liquidity less_fee
    amount_in ← amount_in_to zero_for_one sqrt_current sqrt_next liquidity
    amount_out ← amount_out_to zero_for_one sqrt_current sqrt_next liquidity
    fee_amount ← fee_in (sqrt_next == sqrt_target) amount_remaining amount_in fee fee_complement
    ok (record {
      sqrt_next = sqrt_next;
      amount_in = amount_in;
      amount_out = amount_out;
      fee_amount = fee_amount;
    })

  -- With an exact output.
  unfoldable pub step_out : Bool → ℕ → ℕ → ℕ → ℕ → ℕ → Result SwapStep
  step_out zero_for_one sqrt_current sqrt_target liquidity amount_remaining fee = do
    fee_complement ← sub_checked fee_denominator fee
    sqrt_next ← next_price_out zero_for_one sqrt_current sqrt_target liquidity amount_remaining
    amount_in ← amount_in_to zero_for_one sqrt_current sqrt_next liquidity
    amount_out ← amount_out_to zero_for_one sqrt_current sqrt_next liquidity
    fee_amount ← mul_div_u128 amount_in fee fee_complement true
    ok (record {
      sqrt_next = sqrt_next;
      amount_in = amount_in;
      amount_out = if ltb amount_remaining amount_out then amount_remaining else amount_out;
      fee_amount = fee_amount;
    })

  unfoldable pub compute_swap_step : ℕ → ℕ → ℕ → ℕ → ℕ → Bool → Bool → Result SwapStep
  compute_swap_step sqrt_current sqrt_target liquidity amount_remaining fee_pips zero_for_one
        exact_input =
      elim (liquidity == 0) [
        | true ↦
            ok (record { sqrt_next = sqrt_target; amount_in = 0; amount_out = 0; fee_amount = 0 })
        | false ↦
            if exact_input
            then step_in zero_for_one sqrt_current sqrt_target liquidity amount_remaining fee_pips
            else step_out zero_for_one sqrt_current sqrt_target liquidity amount_remaining fee_pips
      ]
