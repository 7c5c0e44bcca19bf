-- ===== src/Concentrated/Settle.antt =====
-- liquidity_pool_concentrated/src/contract/internal.rs and liquidity_pool_interface.rs: the swaps,
-- their payments and what is left of an exact input. Events are left out.
use soroban_amm.Prelude.{ℕ, ◌+◌, ◌-◌, Bool, true, false, ◌&&◌, not, ltb, ◌==◌, if◌then◌else◌}
use soroban_amm.Host.{
  Address, Env, Math, Result, ok, ◌>>=◌, ◌>>◌, panic_if, require_auth, fit, sub_checked,
  concentrated, ConcentratedPoolError, validation, ValidationError,
}
use soroban_amm.Host.Integer.{ℤ, pos, pos_part, neg_part, ◌-ℤ◌, ltb_ℤ, as_i128, as_u128, fit_i128}
use soroban_amm.Pool.State.{Outside}
use soroban_amm.Concentrated.Math.{mul_div_u128, wrapping_add_u256}
use soroban_amm.Concentrated.Step.{fee_denominator}
use soroban_amm.Concentrated.State.{Pool, ProtocolFees, TickInfo, get_tick, write_tick}
use soroban_amm.Concentrated.Liquidity.{magnitude}
use soroban_amm.Concentrated.Fees.{add_fee_growth_global}
use soroban_amm.Concentrated.Swap.{
  SwapState, add_protocol_fee, swap_loop, swap_amounts_signed, simulate_swap_amounts,
  direction_from_indexes,
}
use soroban_amm.Concentrated.Positions.{send}

pub record SwapResult : Type 0 where
  pub amount0 : ℤ
  pub amount1 : ℤ
  pub liquidity : ℕ
  pub sqrt_price_x96 : ℕ
  pub tick : ℤ

-- A reserve after a swap: a token paid in comes in less the protocol's part, a token paid out goes.
unfoldable pub reserve_after : ℕ → ℤ → ℕ → Result ℕ
reserve_after reserve amount protocol_part = elim (ltb_ℤ (pos 0) amount) [
  | true ↦ do net ← sub_checked (pos_part amount) protocol_part; fit 128 (reserve + net)
  | false ↦ sub_checked reserve (neg_part amount)
]

-- What the surplus adds to the growth kept at the tick that was crossed last.
unfoldable pub with_growth : Bool → ℕ → TickInfo → TickInfo
with_growth true outside tick = record tick { fee_growth_outside_0_x128 = outside }
with_growth false outside tick = record tick { fee_growth_outside_1_x128 = outside }

unfoldable pub outside_of : Bool → TickInfo → ℕ
outside_of true tick = tick.fee_growth_outside_0_x128
outside_of false tick = tick.fee_growth_outside_1_x128

unfoldable pub add_reserve : Bool → ℕ → Pool → Result Pool
add_reserve true amount p = do
  reserve0 ← fit 128 (p.reserve0 + amount)
  ok (record p { reserve0 = reserve0 })
add_reserve false amount p = do
  reserve1 ← fit 128 (p.reserve1 + amount)
  ok (record p { reserve1 = reserve1 })

-- The amount that a swap pays out, which must not be negative.
unfoldable pub received : ℤ → Result ℕ
received amount = do
  panic_if (ltb_ℤ (pos 0) amount) (concentrated ConcentratedPoolError.invalid_amount)
  negated ← fit_i128 (pos 0 -ℤ amount)
  ok (as_u128 negated)

-- The amount that a swap takes in, which must be positive.
unfoldable pub spent : ℤ → Result ℕ
spent amount = do
  panic_if (not (ltb_ℤ (pos 0) amount)) (concentrated ConcentratedPoolError.invalid_amount)
  ok (as_u128 amount)

module _ ⦃m : Math⦄ where
  unfoldable pub adjust_last_tick : Bool → Bool → ℕ → ℤ → Pool → Result Pool
  adjust_last_tick zero_for_one had_crossing growth_delta last_crossed_tick p =
      elim (had_crossing && not (growth_delta == 0)) [
        | false ↦ ok p
        | true ↦ do
          tick ← get_tick p last_crossed_tick p.tick_spacing
          outside ← wrapping_add_u256 (outside_of zero_for_one tick) growth_delta
          write_tick p last_crossed_tick p.tick_spacing (with_growth zero_for_one outside tick)
      ]

  -- The surplus of an exact input is a fee for the liquidity that was active last.
  unfoldable pub distribute_surplus : Bool → ℕ → SwapState → Pool → Result Pool
  distribute_surplus zero_for_one unswapped s p =
      elim (ltb 0 unswapped && ltb 0 s.last_nonzero_liquidity) [
        | false ↦ ok p
        | true ↦ do
          cut ← mul_div_u128 unswapped p.protocol_fee_fraction fee_denominator false
          surplus_for_lp ← sub_checked unswapped cut
          let fees = add_protocol_fee zero_for_one cut p.protocol_fees
          let p₁ : Pool = record p { protocol_fees = if ltb 0 cut then fees else p.protocol_fees }
          grown ← add_fee_growth_global zero_for_one surplus_for_lp s.last_nonzero_liquidity p₁
          p₂ ← adjust_last_tick zero_for_one s.had_crossing grown.0 s.last_crossed_tick grown.1
          add_reserve zero_for_one surplus_for_lp p₂
      ]

  -- The books of a swap: `before` are the protocol's fees before it.
  unfoldable pub book_swap : Bool → Bool → ℤ × ℤ → ℕ → ProtocolFees → SwapState → Pool → Result Pool
  book_swap zero_for_one exact_input (amount0, amount1) unswapped before s p = do
    cut0 ← sub_checked s.protocol_fees.token0 before.token0
    cut1 ← sub_checked s.protocol_fees.token1 before.token1
    reserve0 ← reserve_after p.reserve0 amount0 cut0
    reserve1 ← reserve_after p.reserve1 amount1 cut1
    let booked : Pool = record p { reserve0 = reserve0; reserve1 = reserve1 }
    if exact_input then distribute_surplus zero_for_one unswapped s booked else ok booked

  module _ {S : Type 0} (o : Outside S) (update_plane : Pool → S → Result S) where
    -- The payments: all that the user allows comes in, what an exact output leaves of it goes back.
    unfoldable pub pay_swap : Env → Address → Address → Address → Bool → ℕ → ℕ → ℕ → S → Result S
    pay_swap e sender in_token out_token exact_input user_max_in actual_in actual_out s = do
      s₁ ← send o in_token sender e.current_contract user_max_in s
      let refund = if exact_input then 0 else user_max_in - actual_in
      s₂ ← send o in_token e.current_contract sender refund s₁
      send o out_token e.current_contract sender actual_out s₂

    unfoldable pub swap_internal :
        ℕ → Env → Pool × S → Address → Bool → ℤ → ℕ → ℕ → Result (SwapResult × (Pool × S))
    swap_internal fuel e (p₀, s) sender zero_for_one amount_specified sqrt_price_limit user_max_in =
        do
          let exact_input = ltb_ℤ (pos 0) amount_specified
          done ← swap_loop fuel p₀ zero_for_one amount_specified sqrt_price_limit false
          let used = magnitude amount_specified - done.0.amount_remaining
          panic_if (exact_input && used == 0)
              (concentrated ConcentratedPoolError.insufficient_liquidity)
          amounts ← swap_amounts_signed zero_for_one exact_input used done.0.amount_calculated
          let actual_in = as_u128 (if zero_for_one then amounts.0 else amounts.1)
          negated ← fit_i128 (pos 0 -ℤ (if zero_for_one then amounts.1 else amounts.0))
          let actual_out = as_u128 negated
          panic_if (ltb user_max_in actual_in) (validation ValidationError.in_max_not_satisfied)
          let in_token = if zero_for_one then p₀.token0 else p₀.token1
          let out_token = if zero_for_one then p₀.token1 else p₀.token0
          s₁ ← pay_swap e sender in_token out_token exact_input user_max_in actual_in actual_out s
          p ←
              book_swap zero_for_one exact_input amounts (user_max_in - actual_in) p₀.protocol_fees
                done.0 done.1
          s₂ ← update_plane p s₁
          ok (
            record {
              amount0 = amounts.0;
              amount1 = amounts.1;
              liquidity = done.0.liquidity;
              sqrt_price_x96 = done.0.slot.sqrt_price_x96;
              tick = done.0.slot.tick;
            },
            (p, s₂),
          )

    unfoldable pub swap : ℕ → Env → Pool × S → Address → ℕ → ℕ → ℕ → ℕ → Result (ℕ × (Pool × S))
    swap fuel e (p, s) user in_idx out_idx in_amount out_min = do
      zero_for_one ← direction_from_indexes in_idx out_idx
      require_auth e user
      panic_if p.is_killed_swap (concentrated ConcentratedPoolError.swap_killed)
      done ← swap_internal fuel e (p, s) user zero_for_one (as_i128 in_amount) 0 in_amount
      amount_out ← received (if zero_for_one then done.0.amount1 else done.0.amount0)
      panic_if (ltb amount_out out_min) (validation ValidationError.out_min_not_satisfied)
      ok (amount_out, done.1)

    unfoldable pub estimate_swap : ℕ → Pool → ℕ → ℕ → ℕ → Result ℕ
    estimate_swap fuel p in_idx out_idx in_amount = do
      zero_for_one ← direction_from_indexes in_idx out_idx
      amounts ← simulate_swap_amounts fuel p zero_for_one (as_i128 in_amount) 0
      received (if zero_for_one then amounts.1 else amounts.0)

    unfoldable pub swap_strict_receive :
        ℕ → Env → Pool × S → Address → ℕ → ℕ → ℕ → ℕ → Result (ℕ × (Pool × S))
    swap_strict_receive fuel e (p, s) user in_idx out_idx out_amount in_max = do
      zero_for_one ← direction_from_indexes in_idx out_idx
      require_auth e user
      panic_if p.is_killed_swap (concentrated ConcentratedPoolError.swap_killed)
      specified ← fit_i128 (pos 0 -ℤ as_i128 out_amount)
      done ← swap_internal fuel e (p, s) user zero_for_one specified 0 in_max
      amount_in ← spent (if zero_for_one then done.0.amount0 else done.0.amount1)
      ok (amount_in, done.1)

    unfoldable pub estimate_swap_strict_receive : ℕ → Pool → ℕ → ℕ → ℕ → Result ℕ
    estimate_swap_strict_receive fuel p in_idx out_idx out_amount = elim (out_amount == 0) [
      | true ↦ ok 0
      | false ↦ do
        zero_for_one ← direction_from_indexes in_idx out_idx
        specified ← fit_i128 (pos 0 -ℤ as_i128 out_amount)
        amounts ← simulate_swap_amounts fuel p zero_for_one specified 0
        spent (if zero_for_one then amounts.0 else amounts.1)
    ]
