-- ===== src/Stableswap/Tests/Curves.antt =====
-- The quadratic equation of the pool at a swap.
use soroban_amm.Prelude.{
  ℕ, zero, ◌+◌, ◌*◌, ◌/◌, ◌≤◌, ◌<◌, ◌≡◌, ◌≢◌, refl, arith, [], ◌∷◌, List, length,
}
use soroban_amm.Host.{ok}
use soroban_amm.Host.Exact.{exact, quotient_u256}
use soroban_amm.Pool.Tests.Balances.{table, env, balances}
use soroban_amm.Stableswap.State.{Stable, fee_denominator, get, get_precision_mul, xp}
use soroban_amm.Stableswap.Ramp.{a}
use soroban_amm.Stableswap.Invariant.{is_within_one, sum_of, product_of, next_d, iterate_d, get_d}
use soroban_amm.Stableswap.Invariant.Balanced.{repeat, get_d-balanced}
use soroban_amm.Stableswap.Solve.{next_y, iterate_y, known_at, accumulate, solve, get_y}
use soroban_amm.Stableswap.Solve.Root.{IsRoot, get_y-IsRoot}
use soroban_amm.Stableswap.Reserves.{sync_reserves}
use soroban_amm.Stableswap.Swap.{grown_at}
use soroban_amm.Stableswap.Swap.Curve.{swap-above_curve}
use soroban_amm.Stableswap.Tests.{start, no_plane, swapped, after_swap, swap_runs}

y_runs : get_y ⦃m = exact⦄ env start 0 1 1000997 (1000000 ∷ 2000000 ∷ []) ≡ ok 1998994
unfolding get_y a get_d sum_of iterate_d next_d product_of is_within_one accumulate known_at get
    solve iterate_y next_y quotient_u256
y_runs = refl

get_y-IsRoot_example :
    (zero ≢ 1)
    × (0 < 2)
    × (1 < 2)
    × (amp : ℕ) × (a ⦃m = exact⦄ env start ≡ ok amp)
    × (d : ℕ) × (get_d ⦃m = exact⦄ 2 (1000000 ∷ 2000000 ∷ []) amp ≡ ok d)
    × (c : ℕ) × (sum : ℕ) × (accumulate ⦃m = exact⦄ 2 d 1
          (known_at ⦃m = exact⦄ 0 1000997 (1000000 ∷ 2000000 ∷ []))
          0
          2
          (d, 0)
        ≡ ok (c, sum))
    × IsRoot (c * d / (amp * 2 * 2)) (sum + d / (amp * 2)) d 1998994
get_y-IsRoot_example =
    get_y-IsRoot ⦃m = exact⦄ env start 0 1 1000997 1998994 (1000000 ∷ 2000000 ∷ []) y_runs

swap-above_curve_example :
    (900 ≤ 1005)
    × (p : Stable) × (sync_reserves table env start balances ≡ ok p)
    × (scales : List ℕ) × (get_precision_mul p.decimals ≡ ok scales)
    × (xs : List ℕ) × (xp p p.reserves ≡ ok xs)
    × (fee : ℕ) × (exact.fixed_mul_ceil 1000 p.fee fee_denominator ≡ ok fee)
    × (x : ℕ) × (grown_at scales xs 0 1000 fee ≡ ok x)
    × (y : ℕ) × (get_y ⦃m = exact⦄ env p 0 1 x xs ≡ ok y)
    × (held : ℕ) × (get xs 1 ≡ ok held)
    × (scale : ℕ) × (get scales 1 ≡ ok scale)
    × (y + 1 + 1005 * scale ≤ held)
    × (amp : ℕ) × (a ⦃m = exact⦄ env p ≡ ok amp)
    × (d : ℕ) × (get_d ⦃m = exact⦄ (length p.tokens) xs amp ≡ ok d)
    × (c : ℕ) × (sum : ℕ) × (accumulate ⦃m = exact⦄
          (length p.tokens)
          d
          1
          (known_at ⦃m = exact⦄ 0 x xs)
          0
          (length p.tokens)
          (d, 0)
        ≡ ok (c, sum))
    × (c * d / (amp * length p.tokens * length p.tokens) + d * (y + 1)
        < (y + 1) * (y + 1) + (sum + d / (amp * length p.tokens)) * (y + 1))
swap-above_curve_example =
    swap-above_curve ⦃m = exact⦄ table no_plane env start balances 5 0 1 1000 900 1005
      (swapped, after_swap) swap_runs

get_d-balanced_example : get_d ⦃m = exact⦄ 2 (repeat 2 1000000) 100 ≡ ok 2000000
get_d-balanced_example =
    get_d-balanced ⦃m = exact⦄ 2 1000000 100 (omega arith) (omega arith) (omega arith) (omega arith)
      (omega arith) (omega arith)
