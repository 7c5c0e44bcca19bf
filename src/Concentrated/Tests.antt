-- ===== src/Concentrated/Tests.antt =====
-- Runs of the concentrated pool at concrete numbers, and the theorems applied at them.
mod Pool
mod Swaps
mod Crossing
use soroban_amm.Prelude.{
  ℕ, ◌+◌, ◌-◌, ◌*◌, ◌/◌, ◌^◌, ◌≤◌, ◌<◌, ◌≡◌, ◌≢◌, refl, Bool, true, false, Option, none, some, List,
  [], ◌∷◌, arith,
}
use soroban_amm.Host.{ok, ◌>>=◌}
use soroban_amm.Host.Exact.{exact, quotient_u256}
use soroban_amm.Host.Integer.{ℤ, pos, negsuc}
use soroban_amm.Concentrated.U512.{max_u256}
use soroban_amm.Concentrated.Math.{wrapping_sub_u256, wrapping_add_u256, amount0_delta_u256}
use soroban_amm.Concentrated.Math.Wrapping.{wrapping_sub-wrapping_add}
use soroban_amm.Concentrated.Math.Deltas.{quotient, amount0_delta_u256-exact}
use soroban_amm.Concentrated.Math.Ratios.{widening_mul}
use soroban_amm.Concentrated.Math.Ratios.Product.{widening_mul-exact}
use soroban_amm.Concentrated.Ticks.{
  compressed_to_tick, compressed_of, chunk_address, compress_tick, truncated_rem,
}
use soroban_amm.Concentrated.Ticks.Floor.{compressed_to_tick-chunk_address}
use soroban_amm.Concentrated.Step.{SwapStep, compute_swap_step}
use soroban_amm.Concentrated.Step.Amounts.{IsAhead}
use soroban_amm.Concentrated.Step.Input.{compute_swap_step-exact_in}

wrapping_sub-wrapping_add_example :
    ((wrapping_add_u256 ⦃m = exact⦄ (2 ^ 256 - 3) 5 >>= λ sum. wrapping_sub_u256 ⦃m = exact⦄ sum 5)
      ≡ ok (2 ^ 256 - 3))
    × ((wrapping_sub_u256 ⦃m = exact⦄ (2 ^ 256 - 3) 5 >>= λ rest.
          wrapping_add_u256 ⦃m = exact⦄ rest 5)
        ≡ ok (2 ^ 256 - 3))
wrapping_sub-wrapping_add_example =
    wrapping_sub-wrapping_add ⦃m = exact⦄ (2 ^ 256 - 3) 5 (omega arith) (omega arith)

amount0_delta_u256-exact_example :
    amount0_delta_u256 ⦃m = exact⦄ (2 ^ 96) (2 ^ 97) 1000001 true
    ≡ ok (some (quotient true (1000001 * 2 ^ 96 * (2 ^ 97 - 2 ^ 96)) (2 ^ 97 * 2 ^ 96)))
amount0_delta_u256-exact_example =
    amount0_delta_u256-exact ⦃m = exact⦄ (2 ^ 96) (2 ^ 97) 1000001 true (omega arith) (omega arith)
      (omega arith) (omega arith) (omega arith)

widening_mul-exact_example :
    ((widening_mul (2 ^ 128 - 1) (2 ^ 127 + 7)).0 * 2 ^ 128
        + (widening_mul (2 ^ 128 - 1) (2 ^ 127 + 7)).1
      ≡ (2 ^ 128 - 1) * (2 ^ 127 + 7))
    × ((widening_mul (2 ^ 128 - 1) (2 ^ 127 + 7)).0 < 2 ^ 128)
    × ((widening_mul (2 ^ 128 - 1) (2 ^ 127 + 7)).1 < 2 ^ 128)
widening_mul-exact_example =
    widening_mul-exact (2 ^ 128 - 1) (2 ^ 127 + 7) (omega arith) (omega arith)

on_grid : truncated_rem (negsuc 119) 60 ≡ pos 0
unfolding truncated_rem
on_grid = refl

compressed_to_tick-chunk_address_example :
    compressed_to_tick
      (compressed_of
        (chunk_address (compress_tick (negsuc 119) 60)).0
        (chunk_address (compress_tick (negsuc 119) 60)).1)
      60
    ≡ negsuc 119
compressed_to_tick-chunk_address_example =
    compressed_to_tick-chunk_address (negsuc 119) 60 (omega arith) on_grid refl refl

compute_swap_step-exact_in_example :
    (step : SwapStep) × (compute_swap_step ⦃m = exact⦄
        (2 ^ 96)
        (2 ^ 95)
        1000000000
        5000
        30
        true
        true
      ≡ ok step)
    × IsAhead true (2 ^ 96) step.sqrt_next
    × IsAhead true step.sqrt_next (2 ^ 95)
    × (step.amount_in + step.fee_amount ≤ 5000)
    × (step.sqrt_next ≢ 2 ^ 95 → step.amount_in + step.fee_amount ≡ 5000)
compute_swap_step-exact_in_example =
    compute_swap_step-exact_in ⦃m = exact⦄ true (2 ^ 96) (2 ^ 95) 1000000000 5000 30 (omega arith)
      (omega arith) (omega arith) (omega arith) (omega arith) (omega arith) (omega arith)
      (omega arith) (omega arith) (omega arith)
