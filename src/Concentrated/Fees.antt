-- ===== src/Concentrated/Fees.antt =====
-- liquidity_pool_concentrated/src/contract/internal.rs: the growth of fees per unit of liquidity.
pub mod Inside
pub mod Shared
pub mod Uses
pub mod Crossing
use soroban_amm.Prelude.{
  ℕ, ◌-◌, Bool, true, false, ◌||◌, Option, none, some, ltb, ◌==◌, if◌then◌else◌, List,
}
use soroban_amm.Host.{Address, Math, Result, ok, ◌>>=◌}
use soroban_amm.Host.Integer.{ℤ, ltb_ℤ}
use soroban_amm.Stableswap.State.{get, set}
use soroban_amm.Concentrated.Math.{
  wrapping_sub_u256, wrapping_add_u256, fee_growth_delta_x128, mul_div_fee_growth,
}
use soroban_amm.Concentrated.Ticks.{compress_tick, chunk_address}
use soroban_amm.Concentrated.State.{Pool, TickInfo, PositionData, get_tick}
use soroban_amm.Concentrated.Search.{ChunkCache, get_or_create_chunk, set_chunk}
use soroban_amm.Concentrated.Liquidity.{saturating_add}

module _ ⦃m : Math⦄ where
  -- The growth on the far side of a tick: what is kept there, or the rest of the whole.
  unfoldable pub growth_beyond : Bool → ℕ → ℕ → Result ℕ
  growth_beyond true global outside = ok outside
  growth_beyond false global outside = wrapping_sub_u256 global outside

  -- The growth inside for one of the tokens; `above_lower` is `tick_current >= tick_lower`,
  -- `below_upper` is `tick_current < tick_upper`.
  unfoldable pub growth_inside : Bool → Bool → ℕ → ℕ → ℕ → Result ℕ
  growth_inside above_lower below_upper global lower_outside upper_outside = do
    fee_growth_below ← growth_beyond above_lower global lower_outside
    fee_growth_above ← growth_beyond below_upper global upper_outside
    above_lower_part ← wrapping_sub_u256 global fee_growth_below
    wrapping_sub_u256 above_lower_part fee_growth_above

  unfoldable pub compute_fee_growth_inside : Pool → ℤ → ℤ → ℤ → Result (ℕ × ℕ)
  compute_fee_growth_inside p tick_lower tick_upper tick_current = do
    lower ← get_tick p tick_lower p.tick_spacing
    upper ← get_tick p tick_upper p.tick_spacing
    let above_lower = if ltb_ℤ tick_current tick_lower then false else true
    let below_upper = ltb_ℤ tick_current tick_upper
    inside_0 ←
        growth_inside above_lower below_upper p.fee_growth_global_0_x128
          lower.fee_growth_outside_0_x128 upper.fee_growth_outside_0_x128
    inside_1 ←
        growth_inside above_lower below_upper p.fee_growth_global_1_x128
          lower.fee_growth_outside_1_x128 upper.fee_growth_outside_1_x128
    ok (inside_0, inside_1)

  unfoldable pub accrue_position_fees : Pool → PositionData → ℤ → ℤ → ℤ → Result PositionData
  accrue_position_fees p position tick_lower tick_upper tick_current = do
    inside ← compute_fee_growth_inside p tick_lower tick_upper tick_current
    delta_0 ← wrapping_sub_u256 inside.0 position.fee_growth_inside_0_last_x128
    delta_1 ← wrapping_sub_u256 inside.1 position.fee_growth_inside_1_last_x128
    owed_0 ← mul_div_fee_growth delta_0 position.liquidity
    owed_1 ← mul_div_fee_growth delta_1 position.liquidity
    ok (record position {
      tokens_owed_0 = saturating_add position.tokens_owed_0 owed_0;
      tokens_owed_1 = saturating_add position.tokens_owed_1 owed_1;
      fee_growth_inside_0_last_x128 = inside.0;
      fee_growth_inside_1_last_x128 = inside.1;
    })

  unfoldable pub get_or_create_position : Pool → Address → ℤ → ℤ → Result PositionData
  get_or_create_position p owner tick_lower tick_upper =
      elim (p.positions owner tick_lower tick_upper) [
        | some position ↦ ok position
        | none ↦ do
          inside ← compute_fee_growth_inside p tick_lower tick_upper p.slot0.tick
          ok (record {
            fee_growth_inside_0_last_x128 = inside.0;
            fee_growth_inside_1_last_x128 = inside.1;
            liquidity = 0;
            tokens_owed_0 = 0;
            tokens_owed_1 = 0;
          })
      ]

  -- The tick with what it keeps of the fees turned over.
  unfoldable pub turned_over : Pool → TickInfo → Result TickInfo
  turned_over p tick = do
    outside_0 ← wrapping_sub_u256 p.fee_growth_global_0_x128 tick.fee_growth_outside_0_x128
    outside_1 ← wrapping_sub_u256 p.fee_growth_global_1_x128 tick.fee_growth_outside_1_x128
    ok (record tick {
      fee_growth_outside_0_x128 = outside_0;
      fee_growth_outside_1_x128 = outside_1;
    })

  -- `cross_tick`: the liquidity that the tick adds, and the cache after it.
  unfoldable pub cross_tick : Pool → ChunkCache → ℤ → Result (ℤ × ChunkCache)
  cross_tick p cs tick_idx = do
    let (chunk_pos, slot_idx) = chunk_address (compress_tick tick_idx p.tick_spacing)
    let (chunk, cs') = get_or_create_chunk p cs chunk_pos
    tick ← get chunk slot_idx
    turned ← turned_over p tick
    chunk' ← set chunk slot_idx turned
    ok (tick.liquidity_net, set_chunk chunk_pos chunk' cs')

  unfoldable pub add_growth : Bool → ℕ → Pool → Result Pool
  add_growth true delta p = do
    next ← wrapping_add_u256 p.fee_growth_global_0_x128 delta
    ok (record p { fee_growth_global_0_x128 = next })
  add_growth false delta p = do
    next ← wrapping_add_u256 p.fee_growth_global_1_x128 delta
    ok (record p { fee_growth_global_1_x128 = next })

  -- `add_fee_growth_global`: the growth that was added.
  unfoldable pub add_fee_growth_global : Bool → ℕ → ℕ → Pool → Result (ℕ × Pool)
  add_fee_growth_global zero_for_one fee_amount_for_lp liquidity p =
      elim (fee_amount_for_lp == 0 || liquidity == 0) [
        | true ↦ ok (0, p)
        | false ↦ do
          growth_delta ← fee_growth_delta_x128 fee_amount_for_lp liquidity
          p' ← add_growth zero_for_one growth_delta p
          ok (growth_delta, p')
      ]
