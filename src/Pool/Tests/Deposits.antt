-- ===== src/Pool/Tests/Deposits.antt =====
-- A deposit and a withdrawal on the table, and the theorems at them.
use soroban_amm.Prelude.{◌+◌, ◌-◌, ◌*◌, ◌/◌, ◌≤◌, ◌≡◌, [], ◌∷◌, refl, arith}
use soroban_amm.Host.{ok}
use soroban_amm.Host.Integer.{as_i128, as_u128}
use soroban_amm.Host.Exact.{exact}
use soroban_amm.Pool.Formulas.{get_deposit_amounts}
use soroban_amm.Pool.State.{Pool, sync_reserves, two, mint_shares, burn_shares}
use soroban_amm.Pool.Liquidity.{
  new_total_shares, value_of, checkpoint_before, checkpoint_after, conclude, give_back, credit,
  deposit, redeem, withdraw,
}
use soroban_amm.Pool.Ledger.{Solvent}
use soroban_amm.Pool.Shares.{KeepsWorth, deposit-worth, withdraw-worth, deposit-withdraw}
use soroban_amm.Pool.Solvency.{deposit-Solvent, withdraw-Solvent}
use soroban_amm.Pool.Tests.Balances.{
  Table, moved, minted, burned, table, table-IsLedger, env, start, balances,
}

abbrev deposited : Pool
deposited = record start {
  total_shares = 1415627;
  reserve_a = 1001000;
  reserve_b = 2002000;
  reserves_sync_ledger = 50;
}

abbrev after_deposit : Table
after_deposit = minted 3 5 1414 (moved 2 9 5 1000 (moved 2 5 9 3000 (moved 1 5 9 1000 balances)))

deposit_runs :
    deposit ⦃m = exact⦄ table env (start, balances) 5 (1000 ∷ 3000 ∷ []) 1
    ≡ ok ((1000, 2000), 1414, (deposited, after_deposit))
unfolding deposit two sync_reserves checkpoint_before as_i128 as_u128 get_deposit_amounts give_back
    credit new_total_shares mint_shares conclude checkpoint_after
deposit_runs = refl

abbrev withdrawn : Pool
withdrawn = record deposited { total_shares = 1414213; reserve_a = 1000001; reserve_b = 2000001 }

abbrev after_withdrawal : Table
after_withdrawal = moved 2 9 5 1999 (moved 1 9 5 999 (burned 3 5 1414 after_deposit))

withdraw_runs :
    withdraw ⦃m = exact⦄ table env (deposited, after_deposit) 5 1414 (0 ∷ 0 ∷ [])
    ≡ ok ((999, 1999), (withdrawn, after_withdrawal))
unfolding withdraw two sync_reserves checkpoint_before as_i128 burn_shares value_of redeem conclude
    checkpoint_after
withdraw_runs = refl

start_covered : Solvent table 9 start balances
start_covered = omega arith

deposit-worth_example :
    (p : Pool) × (sync_reserves table env start balances ≡ ok p)
    × (1 ≤ 1414)
    × (1001000 ≡ p.reserve_a + 1000)
    × (2002000 ≡ p.reserve_b + 2000)
    × (1415627 ≡ p.total_shares + 1414)
    × KeepsWorth p deposited
    × (50 ≡ env.sequence)
deposit-worth_example =
    deposit-worth ⦃m = exact⦄ table env start deposited balances after_deposit 5 (1000 ∷ 3000 ∷ [])
      1 1414 (1000, 2000) (omega arith) (omega arith) deposit_runs

withdraw-worth_example :
    (p : Pool) × (sync_reserves table env deposited after_deposit ≡ ok p)
    × (1414 ≤ p.total_shares)
    × (999 ≡ p.reserve_a * 1414 / p.total_shares)
    × (1999 ≡ p.reserve_b * 1414 / p.total_shares)
    × (1414213 ≡ p.total_shares - 1414)
    × (1000001 + 999 ≡ p.reserve_a)
    × (2000001 + 1999 ≡ p.reserve_b)
    × KeepsWorth p withdrawn
withdraw-worth_example =
    withdraw-worth ⦃m = exact⦄ table env deposited withdrawn after_deposit after_withdrawal 5 1414
      (0 ∷ 0 ∷ []) (999, 1999) withdraw_runs

deposit-withdraw_example : (999 ≤ 1000) × (1999 ≤ 2000)
deposit-withdraw_example =
    deposit-withdraw ⦃m = exact⦄ table env start deposited withdrawn balances after_deposit
      after_deposit after_withdrawal 5 (1000 ∷ 3000 ∷ []) (0 ∷ 0 ∷ []) 1 1414 (1000, 2000)
      (999, 1999) (omega arith) (omega arith) (omega arith) deposit_runs withdraw_runs

deposit-Solvent_example : Solvent table 9 deposited after_deposit
deposit-Solvent_example =
    deposit-Solvent ⦃m = exact⦄ table table-IsLedger env start deposited balances after_deposit 5
      (1000 ∷ 3000 ∷ []) 1 1414 (1000, 2000) (omega arith) (omega arith, omega arith, omega arith)
      start_covered deposit_runs

withdraw-Solvent_example : Solvent table 9 withdrawn after_withdrawal
withdraw-Solvent_example =
    withdraw-Solvent ⦃m = exact⦄ table table-IsLedger env deposited withdrawn after_deposit
      after_withdrawal 5 1414 (0 ∷ 0 ∷ []) (999, 1999) (omega arith)
      (omega arith, omega arith, omega arith) (omega arith) withdraw_runs
