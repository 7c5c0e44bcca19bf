-- ===== src/Concentrated/Tests/Swaps.antt =====
-- A swap through the pool of the tests.
use soroban_amm.Prelude.{ℕ, ◌≤◌, ◌≡◌, refl, true, false}
use soroban_amm.Host.{ok}
use soroban_amm.Host.Exact.{exact}
use soroban_amm.Host.Integer.{pos}
use soroban_amm.Concentrated.Swap.{Order, SwapState, validate_price_limit}
use soroban_amm.Concentrated.Swap.Limit.{start, turn, swap_turns-price_limit}
use soroban_amm.Concentrated.Tests.Pool.{some_pool, or_else}
use soroban_amm.Concentrated.Swap.{
  swap_turn, step_to, split_fee, take_step, add_protocol_fee, move_price, cross, with_slot,
  note_liquidity, target_of, order_of, start_swap, limit_or_bound,
}
use soroban_amm.Concentrated.Search.{
  find_initialized_tick_in_word, get_chunk, cached, remember, scan_from, scan_below, scan_above,
  is_init, update_chunk_bitmap_bit, is_zero, scan_chunk_highest_init, scan_chunk_lowest_init,
  find_in_word, bit_beyond, find_beyond_word, find_adjacent_bitmap_word, search_word, find_bit,
  first_bit, next_to, extreme_tick_in_bitmap_word, scan_chunk, no_tick,
}
use soroban_amm.Concentrated.Ticks.{
  compress_tick, truncated_div, truncated_rem, eqb_ℤ, chunk_address, div_euclid, rem_euclid,
  compressed_to_tick, clamp_tick, saturated_i32, times, compressed_of, chunk_bitmap_position,
  word_bitmap_position, max_liquidity_per_tick, position_of,
}
use soroban_amm.Stableswap.State.{get, set}
use soroban_amm.Host.Integer.{◌+ℤ◌, ◌-ℤ◌}
use soroban_amm.Concentrated.Math.Ratios.{
  sqrt_ratio_at_tick, multiply_ratio, tick_at_sqrt_ratio, highest_bit, normalized, log_bits,
  widening_mul, log_halves, tick_bounds,
}
use soroban_amm.Concentrated.Math.{
  u256_mul_shift_128, mul_div_u128, try_amount0_delta, amount0_delta_u256, ordered, mul_div_rounded,
  div_rounded, u256_div_round_up, to_u128, get_next_sqrt_price_from_input,
  get_next_sqrt_price_from_amount0, price_after_in0, amount0_delta, amount1_delta,
  amount1_delta_u256, saturated, fee_growth_delta_x128, u256_mul_div, wrapping_add_u256,
  u256_to_u128,
}
use soroban_amm.Host.Exact.{quotient_u256, bytes_of, bytes_before}
use soroban_amm.Concentrated.Step.{
  compute_swap_step, step_in, next_price_in, price_towards_in, reaches, clamped, try_amount_in_to,
  amount_in_to, amount_out_to, fee_in,
}
use soroban_amm.Concentrated.U512.{
  mul_div_ceil, mul_div_floor, mul_div_internal, rounded, u256_full_mul, u512_div_bytes,
  divide_bytes, divide_byte, lo128, wrapping_add,
}
use soroban_amm.Concentrated.Fees.{add_fee_growth_global, add_growth}
use soroban_amm.Concentrated.Liquidity.{
  saturating_add, update_tick_liquidity, gross_after, net_after, or_overflow, tick_after,
  outside_after, update_bitmap, expand_bounds,
}
use soroban_amm.Concentrated.State.{
  get_tick, tick_in, or_empty_chunk, new_empty_chunk, replicate, write_tick,
  get_or_create_tick_chunk, set_tick_chunk, put_at,
}
use soroban_amm.Concentrated.Bitmap.{
  set_bit, byte_at, with_bit, set_byte, find_prev_set_bit, bits_up_to, capped, top_bit,
}
use soroban_amm.Host.Numbers.{from_be_bytes}

abbrev limit : ℕ
limit = limit_or_bound true 0

abbrev order : Order
order = order_of some_pool true (pos 1000000) limit false

abbrev start_state : SwapState
start_state = start_swap order 1000000 some_pool

abbrev after_turn : SwapState
after_turn = or_else (swap_turn ⦃m = exact⦄ order start_state) start_state

ready :
    (validate_price_limit some_pool.slot0 true 0 ≡ ok limit)
    × (swap_turn ⦃m = exact⦄ order start_state ≡ ok after_turn)
unfolding validate_price_limit limit_or_bound swap_turn step_to find_initialized_tick_in_word
    compress_tick truncated_div truncated_rem eqb_ℤ chunk_address div_euclid rem_euclid get_chunk
    cached remember scan_from scan_below scan_above is_init get set compressed_to_tick clamp_tick
    saturated_i32 times compressed_of ◌+ℤ◌ ◌-ℤ◌ sqrt_ratio_at_tick multiply_ratio u256_mul_shift_128
    quotient_u256 compute_swap_step step_in mul_div_u128 next_price_in price_towards_in reaches
    clamped try_amount_in_to try_amount0_delta amount0_delta_u256 ordered mul_div_rounded
    div_rounded u256_div_round_up mul_div_ceil mul_div_floor mul_div_internal rounded u256_full_mul
    u512_div_bytes divide_bytes divide_byte lo128 to_u128 get_next_sqrt_price_from_input
    get_next_sqrt_price_from_amount0 price_after_in0 amount_in_to amount_out_to amount0_delta
    amount1_delta amount1_delta_u256 saturated fee_in split_fee take_step add_protocol_fee
    add_fee_growth_global fee_growth_delta_x128 u256_mul_div add_growth wrapping_add_u256
    saturating_add move_price cross with_slot tick_at_sqrt_ratio u256_to_u128 highest_bit normalized
    log_bits widening_mul log_halves tick_bounds note_liquidity target_of order_of start_swap
    update_tick_liquidity get_tick tick_in or_empty_chunk new_empty_chunk replicate gross_after
    net_after or_overflow write_tick get_or_create_tick_chunk set_tick_chunk tick_after
    outside_after update_bitmap update_chunk_bitmap_bit chunk_bitmap_position set_bit byte_at
    with_bit set_byte bytes_of bytes_before from_be_bytes is_zero word_bitmap_position put_at
    expand_bounds max_liquidity_per_tick scan_chunk_highest_init scan_chunk_lowest_init wrapping_add
    find_in_word bit_beyond find_beyond_word find_adjacent_bitmap_word search_word find_bit
    find_prev_set_bit bits_up_to capped first_bit next_to extreme_tick_in_bitmap_word position_of
    top_bit scan_chunk no_tick
ready = (refl, refl)

swap_turns-price_limit_example : limit ≤ after_turn.slot.sqrt_price_x96
swap_turns-price_limit_example =
    swap_turns-price_limit ⦃m = exact⦄ some_pool true (pos 1000000) 0 limit false after_turn ready.0
      (turn start ready.1)
