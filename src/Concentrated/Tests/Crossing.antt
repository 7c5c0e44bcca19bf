-- ===== src/Concentrated/Tests/Crossing.antt =====
-- Both ends of a range are crossed, one after the other, in a pool of the tests.
use soroban_amm.Prelude.{ℕ, ◌≡◌, refl, true, arith}
use soroban_amm.Host.{ok}
use soroban_amm.Host.Exact.{exact, quotient_u256}
use soroban_amm.Host.Integer.{ℤ, pos, negsuc, ◌-ℤ◌}
use soroban_amm.Stableswap.State.{get, set}
use soroban_amm.Concentrated.Math.{
  wrapping_sub_u256, wrapping_add_u256, fee_growth_delta_x128, u256_mul_div,
}
use soroban_amm.Concentrated.State.{
  Pool, get_tick, tick_in, or_empty_chunk, new_empty_chunk, replicate, empty_tick, put_at,
}
use soroban_amm.Concentrated.Ticks.{
  eqb_ℤ, compress_tick, truncated_div, truncated_rem, chunk_address, div_euclid, rem_euclid,
}
use soroban_amm.Concentrated.Search.{
  ChunkCache, empty_cache, flush, get_or_create_chunk, cached, remember, set_chunk,
}
use soroban_amm.Concentrated.Liquidity.{check_ticks_internal}
use soroban_amm.Concentrated.Fees.{
  cross_tick, turned_over, compute_fee_growth_inside, add_growth, add_fee_growth_global,
}
use soroban_amm.Concentrated.Fees.Uses.{HasGrowth, Uses, opened, crossed, grown}
use soroban_amm.Concentrated.Fees.Crossing.{compute_fee_growth_inside-cross_tick}
use soroban_amm.Concentrated.Tests.Pool.{empty_pool, or_else}

has_growth : HasGrowth empty_pool
unfolding get_tick tick_in
has_growth = (omega arith, omega arith, λ tick. (empty_tick, refl, (omega arith, omega arith)))

valid : check_ticks_internal empty_pool (negsuc 119) (pos 120) ≡ ok tt
unfolding check_ticks_internal truncated_rem eqb_ℤ
valid = refl

abbrev after_lower : ℤ × ChunkCache
after_lower =
    or_else (cross_tick ⦃m = exact⦄ empty_pool empty_cache (negsuc 119)) (pos 0, empty_cache)

abbrev after_growth : ℕ × Pool
after_growth =
    or_else (add_fee_growth_global ⦃m = exact⦄ true 1000 1000000000000 empty_pool) (0, empty_pool)

abbrev after_upper : ℤ × ChunkCache
after_upper =
    or_else (cross_tick ⦃m = exact⦄ after_growth.1 after_lower.1 (pos 120)) (pos 0, empty_cache)

runs :
    (cross_tick ⦃m = exact⦄ empty_pool empty_cache (negsuc 119) ≡ ok (after_lower.0, after_lower.1))
    × (add_fee_growth_global ⦃m = exact⦄ true 1000 1000000000000 empty_pool
        ≡ ok (after_growth.0, after_growth.1))
    × (cross_tick ⦃m = exact⦄ after_growth.1 after_lower.1 (pos 120)
        ≡ ok (after_upper.0, after_upper.1))
    × (check_ticks_internal after_growth.1 (negsuc 119) (pos 120) ≡ ok tt)
unfolding cross_tick compress_tick truncated_div truncated_rem eqb_ℤ chunk_address div_euclid
    rem_euclid ◌-ℤ◌ get_or_create_chunk cached or_empty_chunk new_empty_chunk replicate get
    turned_over wrapping_sub_u256 set remember set_chunk put_at add_fee_growth_global
    fee_growth_delta_x128 u256_mul_div add_growth wrapping_add_u256 quotient_u256
    check_ticks_internal
runs = (refl, refl, refl, refl)

abbrev uses : Uses ⦃m = exact⦄ empty_pool after_growth.1 after_lower.1
uses =
    grown true 1000 1000000000000 after_growth.0 (crossed (negsuc 119) after_lower.0 opened runs.0)
      runs.1

compute_fee_growth_inside-cross_tick_example :
    compute_fee_growth_inside ⦃m = exact⦄
      (flush after_upper.1 after_growth.1)
      (negsuc 119)
      (pos 120)
      (pos 120)
    ≡ compute_fee_growth_inside ⦃m = exact⦄
        (flush after_lower.1 after_growth.1)
        (negsuc 119)
        (pos 120)
        (pos 0)
compute_fee_growth_inside-cross_tick_example =
    compute_fee_growth_inside-cross_tick ⦃m = exact⦄ empty_pool after_growth.1 (negsuc 119)
      (pos 120) (pos 0) (pos 120) after_upper.0 after_lower.1 after_upper.1 true has_growth uses
      runs.3 runs.2 refl refl
