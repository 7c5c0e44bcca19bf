-- ===== src/Pool/Tests/Trades.antt =====
-- Swaps on the table, and the theorems at them.
use soroban_amm.Prelude.{ℕ, ◌+◌, ◌*◌, ◌≤◌, ◌<◌, ◌≡◌, true, [], ◌∷◌, refl, arith}
use soroban_amm.Host.{ok, err, pool, pool_swap_killed, pool_deposit_killed}
use soroban_amm.Host.Integer.{as_i128}
use soroban_amm.Host.Exact.{exact}
use soroban_amm.Pool.Formulas.{get_amount_out, get_amount_out_strict_receive}
use soroban_amm.Pool.State.{Pool, sync_reserves}
use soroban_amm.Pool.Swap.{
  check_indices, check_invariant, take_in, pay_out, swap, swap_strict_receive,
}
use soroban_amm.Pool.Liquidity.{deposit}
use soroban_amm.Pool.Quotes.{
  IsBest, IsLeast, get_amount_out-IsBest, strict_receive-IsLeast, strict_receive-get_amount_out,
}
use soroban_amm.Pool.Product.{Settled, swap-product}
use soroban_amm.Pool.Ledger.{Solvent}
use soroban_amm.Pool.Solvency.{
  swap-Solvent, swap_strict_receive-Solvent, claim_protocol_fees-Solvent,
}
use soroban_amm.Pool.Switches.{kill-refuses}
use soroban_amm.Pool.Admin.{kill_swap, kill_deposit, pay_fee, pay_fees, claim_protocol_fees}
use soroban_amm.Access.Store.{
  require_pause_or_emergency_pause_admin_or_owner, require_system_fee_admin_or_owner, require_any,
  address_has_role, get_role_safe,
}
use soroban_amm.Pool.Tests.Balances.{Table, moved, table, table-IsLedger, env, start, balances}

abbrev swapped : Pool
swapped = record start {
  reserve_a = 1000999;
  reserve_b = 1998008;
  protocol_fee_a = 8;
  reserves_sync_ledger = 50;
}

abbrev after_swap : Table
after_swap = moved 2 9 5 1992 (moved 1 5 9 1000 balances)

swap_runs :
    swap ⦃m = exact⦄ table env (start, balances) 5 0 1 1000 1900 ≡ ok (1992, (swapped, after_swap))
unfolding swap sync_reserves as_i128 check_indices get_amount_out take_in check_invariant pay_out
swap_runs = refl

quote_runs : get_amount_out ⦃m = exact⦄ 30 1000 1000000 2000000 ≡ ok (1992, 3)
unfolding get_amount_out
quote_runs = refl

get_amount_out-IsBest_example : (3 ≤ 1000) × IsBest 1000000 2000000 997 1992
get_amount_out-IsBest_example =
    get_amount_out-IsBest ⦃m = exact⦄ 30 1000 1000000 2000000 1992 3 (omega arith) quote_runs

reverse_runs : get_amount_out_strict_receive ⦃m = exact⦄ 30 1992 1000000 2000000 ≡ ok (1000, 3)
unfolding get_amount_out_strict_receive
reverse_runs = refl

strict_receive-IsLeast_example :
    (1992 < 2000000) × (3 ≤ 1000) × IsLeast 30 1000000 2000000 1992 1000 997
strict_receive-IsLeast_example =
    strict_receive-IsLeast ⦃m = exact⦄ 30 1992 1000000 2000000 1000 3 (omega arith) reverse_runs

strict_receive-get_amount_out_example : 1992 ≤ 1992
strict_receive-get_amount_out_example =
    strict_receive-get_amount_out ⦃m = exact⦄ 30 1992 1000000 2000000 1000 3 1992 3 (omega arith)
      (omega arith) reverse_runs quote_runs

start_covered : Solvent table 9 start balances
start_covered = omega arith

swap-product_example :
    (p : Pool) × (sync_reserves table env start balances ≡ ok p)
    × (1900 ≤ 1992)
    × ((protocol_fee : ℕ) × Settled p 1 1000 1992 protocol_fee swapped)
    × (p.reserve_a * p.reserve_b ≤ swapped.reserve_a * swapped.reserve_b)
swap-product_example =
    swap-product ⦃m = exact⦄ table env start swapped balances after_swap 5 0 1 1000 1900 1992
      swap_runs

swap-Solvent_example : Solvent table 9 swapped after_swap
swap-Solvent_example =
    swap-Solvent ⦃m = exact⦄ table table-IsLedger env start swapped balances after_swap 5 0 1 1000
      1900 1992 (omega arith) (omega arith) start_covered swap_runs

abbrev after_strict : Table
after_strict = moved 2 9 5 1992 (moved 1 9 5 1000 (moved 1 5 9 2000 balances))

strict_runs :
    swap_strict_receive ⦃m = exact⦄ table env (start, balances) 5 0 1 1992 2000
    ≡ ok (1000, (swapped, after_strict))
unfolding swap_strict_receive sync_reserves as_i128 check_indices get_amount_out_strict_receive
    take_in check_invariant pay_out
strict_runs = refl

swap_strict_receive-Solvent_example : Solvent table 9 swapped after_strict
swap_strict_receive-Solvent_example =
    swap_strict_receive-Solvent ⦃m = exact⦄ table table-IsLedger env start swapped balances
      after_strict 5 0 1 1992 2000 1000 (omega arith) (omega arith) start_covered strict_runs

abbrev claimed : Pool
claimed = record start { protocol_fee_a = 0 }

abbrev after_claim : Table
after_claim = moved 1 9 5 7 balances

claim_runs :
    claim_protocol_fees table env (start, balances) 7 5 ≡ ok ((7, 0), (claimed, after_claim))
unfolding claim_protocol_fees pay_fees pay_fee as_i128 require_system_fee_admin_or_owner require_any
    address_has_role get_role_safe
claim_runs = refl

claim_protocol_fees-Solvent_example :
    (7 ≡ start.protocol_fee_a)
    × (0 ≡ start.protocol_fee_b)
    × (after_claim 1 9 + 7 ≡ balances 1 9)
    × (after_claim 2 9 + 0 ≡ balances 2 9)
    × (claimed.protocol_fee_a ≡ 0)
    × (claimed.protocol_fee_b ≡ 0)
    × (claimed.reserve_a ≡ start.reserve_a)
    × (claimed.reserve_b ≡ start.reserve_b)
    × Solvent table 9 claimed after_claim
claim_protocol_fees-Solvent_example =
    claim_protocol_fees-Solvent table table-IsLedger env start claimed balances after_claim 7 5
      (7, 0) (omega arith) (omega arith) start_covered claim_runs

abbrev no_swaps : Pool
no_swaps = record start { is_killed_swap = true }

kill_swap_runs : kill_swap env start 7 ≡ ok no_swaps
unfolding kill_swap require_pause_or_emergency_pause_admin_or_owner require_any address_has_role
    get_role_safe
kill_swap_runs = refl

abbrev no_deposits : Pool
no_deposits = record no_swaps { is_killed_deposit = true }

kill_deposit_runs : kill_deposit env no_swaps 7 ≡ ok no_deposits
unfolding kill_deposit require_pause_or_emergency_pause_admin_or_owner require_any address_has_role
    get_role_safe
kill_deposit_runs = refl

kill-refuses_example :
    (swap ⦃m = exact⦄ table env (no_deposits, balances) 5 0 1 1000 1900
      ≡ err (pool pool_swap_killed))
    × (swap_strict_receive ⦃m = exact⦄ table env (no_deposits, balances) 5 0 1 1000 1900
        ≡ err (pool pool_swap_killed))
    × (deposit ⦃m = exact⦄ table env (no_deposits, balances) 5 (1000 ∷ 3000 ∷ []) 1
        ≡ err (pool pool_deposit_killed))
kill-refuses_example =
    kill-refuses ⦃m = exact⦄ table env env env start no_swaps no_deposits balances 7 7 5 0 1 1000
      1900 (1000 ∷ 3000 ∷ []) 1 kill_swap_runs kill_deposit_runs refl
