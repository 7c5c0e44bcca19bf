-- ===== src/Stableswap/Tests/Withdrawals.antt =====
-- A withdrawal from the pool, and the theorem at it.
use soroban_amm.Prelude.{◌+◌, ◌≤◌, ◌≡◌, refl, [], ◌∷◌}
use soroban_amm.Host.{ok}
use soroban_amm.Host.Integer.{as_i128}
use soroban_amm.Host.Exact.{exact}
use soroban_amm.Pool.State.{sync_reserve}
use soroban_amm.Pool.Liquidity.{checkpoint_before, checkpoint_after}
use soroban_amm.Pool.Tests.Balances.{Table, moved, burned, table, env, balances}
use soroban_amm.Stableswap.State.{Stable}
use soroban_amm.Stableswap.Reserves.{sync_all, sync_reserves}
use soroban_amm.Stableswap.Withdraw.{pay_part, pay_parts, burn_shares, conclude, withdraw}
use soroban_amm.Stableswap.Withdraw.Parts.{ArePaid, withdraw-parts}
use soroban_amm.Stableswap.Tests.{start, no_plane}

abbrev withdrawn : Stable
withdrawn = record start {
  reserves = 999000 ∷ 1998000 ∷ [];
  total_shares = 2997000;
  reserves_sync_ledger = 50;
}

abbrev after : Table
after = burned 3 5 3000 (moved 2 9 5 2000 (moved 1 9 5 1000 balances))

withdraw_runs :
    withdraw ⦃m = exact⦄ table no_plane env (start, balances) 5 3000 (900 ∷ 1900 ∷ [])
    ≡ ok (1000 ∷ 2000 ∷ [], (withdrawn, after))
unfolding withdraw sync_reserves sync_all sync_reserve as_i128 checkpoint_before checkpoint_after
    pay_part pay_parts burn_shares conclude
withdraw_runs = refl

withdraw-parts_example :
    (p : Stable) × (sync_reserves table env start balances ≡ ok p)
    × (3000 ≤ balances p.token_share 5)
    × (2997000 + 3000 ≡ p.total_shares)
    × ArePaid 3000 p.total_shares p.tokens p.reserves
        (900 ∷ 1900 ∷ [])
        (1000 ∷ 2000 ∷ [])
        (999000 ∷ 1998000 ∷ [])
withdraw-parts_example =
    withdraw-parts ⦃m = exact⦄ table no_plane env start balances 5 3000 (900 ∷ 1900 ∷ [])
      (1000 ∷ 2000 ∷ []) (withdrawn, after) withdraw_runs
