-- ===== src/Stableswap/Tests/Ramps.antt =====
-- A ramp of the coefficient and a change of the fee.
use soroban_amm.Prelude.{ℕ, ◌+◌, ◌*◌, ◌≤◌, ◌<◌, ◌≡◌, true, refl, arith, some}
use soroban_amm.Host.{Env, ok}
use soroban_amm.Host.Exact.{exact}
use soroban_amm.Access.Store.{
  require_operations_admin_or_owner, require_any, address_has_role, get_role_safe,
}
use soroban_amm.Access.Transfer.{admin_actions_delay}
use soroban_amm.Pool.Tests.Balances.{balances}
use soroban_amm.Stableswap.State.{Stable, fee_denominator}
use soroban_amm.Stableswap.Ramp.{max_a, min_ramp_time, a, is_slow, put_ramp, ramp_a}
use soroban_amm.Stableswap.Ramp.Bounds
use soroban_amm.Stableswap.Ramp.Bounds.{Between, Reach-a, ramp_a-gradual}
use soroban_amm.Stableswap.Fee.{commit_new_fee}
use soroban_amm.Stableswap.Fee.Delay
use soroban_amm.Stableswap.Fee.Delay.{Reach-fee}
use soroban_amm.Stableswap.Tests.{start, no_plane}

abbrev later : ℕ → Env
later t = record { timestamp = t; sequence = 50; current_contract = 9; authorized = λ a. true }

abbrev ramped : Stable
ramped = record start { future_a = 500; initial_a_time = 100000; future_a_time = 200000 }

ramp_runs :
    ramp_a ⦃m = exact⦄ no_plane (later 100000) (start, balances) 7 500 200000
    ≡ ok (ramped, balances)
unfolding ramp_a a is_slow put_ramp require_operations_admin_or_owner require_any address_has_role
    get_role_safe
ramp_runs = refl

ramp_a-gradual_example :
    (v : ℕ) × (a ⦃m = exact⦄ (later 100000) start ≡ ok v)
    × (a ⦃m = exact⦄ (later 100000) ramped ≡ ok v)
    × (500 ≤ v * 10)
    × (v ≤ 500 * 10)
    × (100000 + min_ramp_time ≤ 200000)
    × ((e : Env)
        → 100000 ≤ e.timestamp
        → (w : ℕ) × (a ⦃m = exact⦄ e ramped ≡ ok w)
          × Between v 500 w
          × (200000 ≤ e.timestamp → w ≡ 500))
ramp_a-gradual_example =
    ramp_a-gradual ⦃m = exact⦄ no_plane (later 100000) start balances 7 500 200000
      (ramped, balances) (omega arith) ramp_runs

Reach-a_example : (v : ℕ) × (a ⦃m = exact⦄ (later 150000) ramped ≡ ok v) × (0 < v) × (v < max_a)
Reach-a_example = Reach-a ⦃m = exact⦄ no_plane 100000 start ramped (later 150000) (omega arith) (
    Bounds.next
      (Bounds.next Bounds.here
        (Bounds.ramp (later 100000) start balances 7 500 200000 (ramped, balances) ramp_runs))
      (Bounds.wait (omega arith)))

abbrev committed : Stable
committed = record start { future_fee = some 50; admin_actions_deadline = 260200 }

commit_runs : commit_new_fee (later 1000) start 7 50 ≡ ok committed
unfolding commit_new_fee require_operations_admin_or_owner require_any address_has_role
    get_role_safe
commit_runs = refl

Reach-fee_example :
    (committed.fee < fee_denominator)
    × (1000 < 1000 + admin_actions_delay → committed.fee ≡ start.fee)
Reach-fee_example =
    Reach-fee no_plane 1000 1000 start committed (omega arith) tt refl
      (Delay.next Delay.here (Delay.commit (later 1000) start committed 7 50 commit_runs))
