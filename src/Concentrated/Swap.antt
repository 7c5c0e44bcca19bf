-- ===== src/Concentrated/Swap.antt =====
-- liquidity_pool_concentrated/src/contract/internal.rs: the loop of a swap over the ticks.
pub mod Limit
pub mod Shared
use soroban_amm.Prelude.{
  ℕ, zero, suc, ◌+◌, ◌-◌, Bool, true, false, ◌&&◌, ◌||◌, not, ltb, leb, ◌==◌, if◌then◌else◌,
}
use soroban_amm.Host.{
  Math, Result, ok, err, host, no_fuel, ◌>>=◌, ◌>>◌, panic_if, sub_checked, fit, concentrated,
  ConcentratedPoolError, validation, ValidationError,
}
use soroban_amm.Host.Integer.{ℤ, pos, negsuc, pos_part, neg_part, ◌-ℤ◌, ltb_ℤ, fit_i128, as_i128}
use soroban_amm.Concentrated.Ticks.{min_tick, max_tick, eqb_ℤ}
use soroban_amm.Concentrated.Math.{mul_div_u128, min_sqrt_ratio, max_sqrt_ratio}
use soroban_amm.Concentrated.Math.Ratios.{sqrt_ratio_at_tick, tick_at_sqrt_ratio}
use soroban_amm.Concentrated.Step.{SwapStep, compute_swap_step, fee_denominator}
use soroban_amm.Concentrated.State.{Pool, Slot0, ProtocolFees}
use soroban_amm.Concentrated.Search.{
  ChunkCache, empty_cache, get_cached_tick, flush, find_initialized_tick_in_word,
}
use soroban_amm.Concentrated.Liquidity.{saturating_add, magnitude, or_underflow}
use soroban_amm.Concentrated.Fees.{cross_tick, add_fee_growth_global}

-- A price limit that is not zero, or the bound of the prices.
unfoldable pub limit_or_bound : Bool → ℕ → ℕ
limit_or_bound zero_for_one sqrt_price_limit_x96 =
    let bound = if zero_for_one then min_sqrt_ratio + 1 else max_sqrt_ratio - 1 in
    if sqrt_price_limit_x96 == 0 then bound else sqrt_price_limit_x96

unfoldable pub validate_price_limit : Slot0 → Bool → ℕ → Result ℕ
validate_price_limit slot true sqrt_price_limit_x96 = do
  let limit = limit_or_bound true sqrt_price_limit_x96
  panic_if (leb limit min_sqrt_ratio || leb slot.sqrt_price_x96 limit)
      (concentrated ConcentratedPoolError.invalid_price_limit)
  ok limit
validate_price_limit slot false sqrt_price_limit_x96 = do
  let limit = limit_or_bound false sqrt_price_limit_x96
  panic_if (leb max_sqrt_ratio limit || leb limit slot.sqrt_price_x96)
      (concentrated ConcentratedPoolError.invalid_price_limit)
  ok limit

unfoldable pub direction_from_indexes : ℕ → ℕ → Result Bool
direction_from_indexes in_idx out_idx = do
  panic_if (in_idx == out_idx) (validation ValidationError.cannot_swap_same_token)
  panic_if (ltb 1 in_idx) (validation ValidationError.in_token_out_of_bounds)
  panic_if (ltb 1 out_idx) (validation ValidationError.out_token_out_of_bounds)
  ok (in_idx == 0 && out_idx == 1)

-- What a swap keeps the same through its loop.
pub record Order : Type 0 where
  pub zero_for_one : Bool
  pub exact_input : Bool
  pub dry_run : Bool
  pub price_limit : ℕ
  pub tick_bound : ℤ

-- The variables of the loop, the pool and the cache among them.
pub record SwapState : Type 0 where
  pub pool : Pool
  pub chunks : ChunkCache
  pub slot : Slot0
  pub liquidity : ℕ
  pub last_nonzero_liquidity : ℕ
  pub last_crossed_tick : ℤ
  pub had_crossing : Bool
  pub protocol_fees : ProtocolFees
  pub amount_remaining : ℕ
  pub amount_calculated : ℕ
  pub total_fee_amount : ℕ

-- Whether the loop ends, by its condition or by a `break`.
unfoldable pub is_done : Order → SwapState → Bool
is_done o s =
    s.amount_remaining == 0
    || s.slot.sqrt_price_x96 == o.price_limit
    || (if o.zero_for_one
        then ltb_ℤ s.slot.tick o.tick_bound
        else not (ltb_ℤ s.slot.tick o.tick_bound))

unfoldable pub target_of : Bool → ℕ → ℕ → ℕ
target_of true next_tick_price limit = if ltb next_tick_price limit then limit else next_tick_price
target_of false next_tick_price limit = if ltb limit next_tick_price then limit else next_tick_price

-- The amounts after a step.
unfoldable pub take_step : Order → SwapStep → SwapState → SwapState
take_step o step s =
    if o.exact_input
    then record s {
      amount_remaining = s.amount_remaining - step.amount_in - step.fee_amount;
      amount_calculated = saturating_add s.amount_calculated step.amount_out;
    }
    else record s {
      amount_remaining = s.amount_remaining - step.amount_out;
      amount_calculated =
          saturating_add (saturating_add s.amount_calculated step.amount_in) step.fee_amount;
    }

unfoldable pub add_protocol_fee : Bool → ℕ → ProtocolFees → ProtocolFees
add_protocol_fee true cut fees = record fees { token0 = saturating_add fees.token0 cut }
add_protocol_fee false cut fees = record fees { token1 = saturating_add fees.token1 cut }

-- The liquidity past a tick; the sign of the change is that of the direction.
unfoldable pub liquidity_past : Bool → ℕ → ℤ → Result ℕ
liquidity_past zero_for_one liquidity net = do
  signed ← if zero_for_one then fit_i128 (pos 0 -ℤ net) else ok net
  elim signed [
    | pos inc ↦ ok (saturating_add liquidity inc)
    | negsuc n ↦ do dec ← fit_i128 (pos (suc n)); or_underflow liquidity (suc n)
  ]

-- The tick past a tick that was reached.
unfoldable pub tick_past : Bool → ℤ → ℤ
tick_past true next_tick =
    let below = next_tick -ℤ pos 1 in if ltb_ℤ below min_tick then min_tick else below
tick_past false next_tick = if ltb_ℤ max_tick next_tick then max_tick else next_tick

unfoldable pub with_slot : ℕ → ℤ → SwapState → SwapState
with_slot price tick s = record s { slot = record { sqrt_price_x96 = price; tick = tick } }

unfoldable pub note_liquidity : SwapState → SwapState
note_liquidity s = record s {
  last_nonzero_liquidity = if ltb 0 s.liquidity then s.liquidity else s.last_nonzero_liquidity;
}

unfoldable pub start_swap : Order → ℕ → Pool → SwapState
start_swap o amount_specified p = record {
  pool = p;
  chunks = empty_cache;
  slot = p.slot0;
  liquidity = p.liquidity;
  last_nonzero_liquidity = p.liquidity;
  last_crossed_tick = p.slot0.tick;
  had_crossing = false;
  protocol_fees = if o.dry_run then record { token0 = 0; token1 = 0 } else p.protocol_fees;
  amount_remaining = amount_specified;
  amount_calculated = 0;
  total_fee_amount = 0;
}

-- What the loop has changed, stored: in a simulation nothing.
unfoldable pub stored : Order → SwapState → Pool → Pool
stored o s p = if o.dry_run then p else record (flush s.chunks s.pool) {
  protocol_fees = s.protocol_fees;
  liquidity = s.liquidity;
  slot0 = s.slot;
}

unfoldable pub order_of : Pool → Bool → ℤ → ℕ → Bool → Order
order_of p zero_for_one amount_specified price_limit dry_run = record {
  zero_for_one = zero_for_one;
  exact_input = ltb_ℤ (pos 0) amount_specified;
  dry_run = dry_run;
  price_limit = price_limit;
  tick_bound = if zero_for_one then p.min_init_tick else p.max_init_tick;
}

unfoldable pub swap_amounts_signed : Bool → Bool → ℕ → ℕ → Result (ℤ × ℤ)
swap_amounts_signed zero_for_one exact_input amount_spec_used amount_calculated = do
  let amount_in = if exact_input then amount_spec_used else amount_calculated
  let amount_out = if exact_input then amount_calculated else amount_spec_used
  received ← fit_i128 (pos 0 -ℤ as_i128 amount_out)
  ok (if zero_for_one then (as_i128 amount_in, received) else (received, as_i128 amount_in))

module _ ⦃m : Math⦄ where
  -- The split of a step's fee, in a swap that is no simulation.
  unfoldable pub split_fee : Order → ℕ → SwapState → Result SwapState
  split_fee o fee_amount s = elim o.dry_run [
    | true ↦ ok s
    | false ↦ do
      protocol_cut ← mul_div_u128 fee_amount s.pool.protocol_fee_fraction fee_denominator false
      let fee_for_lp = fee_amount - protocol_cut
      grown ← add_fee_growth_global o.zero_for_one fee_for_lp s.liquidity s.pool
      ok (record s {
        protocol_fees = add_protocol_fee o.zero_for_one protocol_cut s.protocol_fees;
        total_fee_amount = saturating_add s.total_fee_amount fee_amount;
        pool = grown.1;
      })
  ]

  -- The tick's change of liquidity, and the cache after it was read or crossed.
  unfoldable pub net_at : Order → SwapState → ℤ → Result (ℤ × ChunkCache)
  net_at o s next_tick = elim o.dry_run [
    | true ↦ do
      read ← get_cached_tick s.pool s.chunks next_tick s.pool.tick_spacing
      ok (read.0.liquidity_net, read.1)
    | false ↦ cross_tick s.pool s.chunks next_tick
  ]

  unfoldable pub cross : Order → ℤ → Bool → SwapState → Result SwapState
  cross o next_tick false s = ok s
  cross o next_tick true s = do
    net ← net_at o s next_tick
    liquidity ← liquidity_past o.zero_for_one s.liquidity net.0
    ok (record s {
      chunks = net.1;
      liquidity = liquidity;
      last_crossed_tick = next_tick;
      had_crossing = true;
    })

  -- The end of a turn: the price moves, and the tick with it.
  unfoldable pub move_price : Order → ℤ → Bool → ℕ → ℕ → SwapState → Result SwapState
  move_price o next_tick initialized next_tick_price sqrt_next s =
      elim (sqrt_next == next_tick_price) [
        | true ↦ do
          s' ← cross o next_tick initialized s
          ok (with_slot sqrt_next (tick_past o.zero_for_one next_tick) s')
        | false ↦ elim (sqrt_next == s.slot.sqrt_price_x96) [
          | true ↦ ok (with_slot sqrt_next s.slot.tick s)
          | false ↦ do tick ← tick_at_sqrt_ratio sqrt_next; ok (with_slot sqrt_next tick s)
        ]
      ]

  -- The body of the loop, once the next tick is found: its price, the step, the fee and the move.
  unfoldable pub step_to : Order → ℤ → Bool → SwapState → Result SwapState
  step_to o next_tick initialized s = do
    next_tick_price ← sqrt_ratio_at_tick next_tick
    step ←
        compute_swap_step s.slot.sqrt_price_x96
          (target_of o.zero_for_one next_tick_price o.price_limit) s.liquidity s.amount_remaining
          s.pool.fee o.zero_for_one o.exact_input
    s' ← split_fee o step.fee_amount (take_step o step s)
    move_price o next_tick initialized next_tick_price step.sqrt_next s'

  unfoldable pub swap_turn : Order → SwapState → Result SwapState
  swap_turn o s = do
    found ←
        find_initialized_tick_in_word s.pool s.chunks s.slot.tick s.pool.tick_spacing o.zero_for_one
    step_to o found.0.0 found.0.1 (record (note_liquidity s) { chunks = found.1 })

  -- The loop, with `fuel` turns.
  unfoldable pub swap_turns : ℕ → Order → SwapState → Result SwapState
  swap_turns zero o s = err (host no_fuel)
  swap_turns (suc fuel) o s = elim (is_done o s) [
    | true ↦ ok s
    | false ↦ do s' ← swap_turn o s; swap_turns fuel o s'
  ]

  -- `swap_loop`: its variables at the end, and the pool that is stored.
  unfoldable pub swap_loop : ℕ → Pool → Bool → ℤ → ℕ → Bool → Result (SwapState × Pool)
  swap_loop fuel p zero_for_one amount_specified sqrt_price_limit_x96 dry_run = do
    panic_if (eqb_ℤ amount_specified (pos 0)) (validation ValidationError.zero_amount)
    panic_if (p.total_raw_liquidity == 0) (validation ValidationError.empty_pool)
    price_limit ← validate_price_limit p.slot0 zero_for_one sqrt_price_limit_x96
    let o = order_of p zero_for_one amount_specified price_limit dry_run
    s ← swap_turns fuel o (start_swap o (magnitude amount_specified) p)
    panic_if (not o.exact_input && ltb 0 s.amount_remaining)
        (concentrated ConcentratedPoolError.insufficient_liquidity)
    ok (s, stored o s p)

  unfoldable pub simulate_swap_amounts : ℕ → Pool → Bool → ℤ → ℕ → Result (ℤ × ℤ)
  simulate_swap_amounts fuel p zero_for_one amount_specified sqrt_price_limit_x96 = do
    done ← swap_loop fuel p zero_for_one amount_specified sqrt_price_limit_x96 true
    let amount_spec_used = magnitude amount_specified - done.0.amount_remaining
    swap_amounts_signed zero_for_one (ltb_ℤ (pos 0) amount_specified) amount_spec_used
        done.0.amount_calculated
