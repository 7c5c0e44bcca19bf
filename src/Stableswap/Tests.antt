-- ===== src/Stableswap/Tests.antt =====
-- A stableswap pool of two tokens over a table of balances, and the theorems at it.
mod Ramps
mod Curves
mod Withdrawals
use soroban_amm.Prelude.{
  ℕ, ◌+◌, ◌-◌, ◌*◌, ◌/◌, ◌≤◌, ◌<◌, ◌≡◌, ◌≢◌, refl, sym, zero, suc, arith, true, false, none, some,
  List, [], ◌∷◌, ltb, ◌==◌, if◌then◌else◌,
}
use soroban_amm.Host.{Address, Env, Result, ok}
use soroban_amm.Host.Inversion.{ok-injective}
use soroban_amm.Host.Integer.{as_i128}
use soroban_amm.Host.Exact.{exact, quotient_u256}
use soroban_amm.Pool.State.{sync_reserve}
use soroban_amm.Pool.Tests.Balances.{Table, moved, table, table-IsLedger, env, access, balances}
use soroban_amm.Stableswap.State.{
  Stable, get, set, max_of, get_precision, scale_all, get_precision_mul, multiply_all, xp,
}
use soroban_amm.Stableswap.Ramp.{a}
use soroban_amm.Stableswap.Invariant.{is_within_one, sum_of, product_of, next_d, iterate_d, get_d}
use soroban_amm.Stableswap.Solve.{next_y, iterate_y, known_at, accumulate, solve, get_y}
use soroban_amm.Stableswap.Reserves.{sync_all, sync_reserves}
use soroban_amm.Stableswap.Swap.{
  book_trade, output_at, grown_at, settle, input_at, shrunk_at, with_fee, refund, return_rest, swap,
  swap_strict_receive,
}
use soroban_amm.Stableswap.Solvency.{Solvent, Distinct}
use soroban_amm.Stableswap.Solvency.Trades.{
  KeepsBalances, swap-covered, swap_strict_receive-covered,
}

abbrev pub start : Stable
start = record {
  access = access;
  tokens = 1 ∷ 2 ∷ [];
  decimals = 7 ∷ 7 ∷ [];
  token_share = 3;
  total_shares = 3000000;
  reserves = 1000000 ∷ 2000000 ∷ [];
  initial_a = 100;
  initial_a_time = 0;
  future_a = 100;
  future_a_time = 0;
  fee = 30;
  future_fee = none;
  admin_actions_deadline = 0;
  is_killed_swap = false;
  is_killed_deposit = false;
  is_killed_claim = false;
  protocol_fee_fraction = 5000;
  protocol_fees = 7 ∷ 0 ∷ [];
  reserves_sync_ledger = 0;
}

abbrev pub no_plane : Stable → Table → Result Table
no_plane p s = ok s

abbrev pub swapped : Stable
swapped = record start {
  reserves = 1000998 ∷ 1998995 ∷ [];
  protocol_fees = 9 ∷ 0 ∷ [];
  reserves_sync_ledger = 50;
}

abbrev pub after_swap : Table
after_swap = moved 2 9 5 1005 (moved 1 5 9 1000 balances)

pub swap_runs :
    swap ⦃m = exact⦄ table no_plane env (start, balances) 5 0 1 1000 900
    ≡ ok (1005, (swapped, after_swap))
unfolding swap sync_reserves sync_all sync_reserve as_i128 xp get_precision_mul get_precision max_of
    scale_all multiply_all grown_at output_at settle book_trade set get_y a get_d sum_of iterate_d
    next_d product_of is_within_one accumulate known_at get solve iterate_y next_y quotient_u256
swap_runs = refl

start_covered : Solvent table 9 start balances
unfolding get
start_covered zero t r f ht hr hf = ground arith
start_covered (suc zero) t r f ht hr hf = ground arith
start_covered (suc (suc k)) t r f ht hr hf = ground arith

start-Distinct : Distinct start
unfolding get
start-Distinct zero zero t hk hl = refl
start-Distinct zero (suc zero) t hk hl = ground arith
start-Distinct (suc zero) zero t hk hl = ground arith
start-Distinct (suc zero) (suc zero) t hk hl = refl
start-Distinct zero (suc (suc l)) t hk hl = ground arith
start-Distinct (suc zero) (suc (suc l)) t hk hl = ground arith
start-Distinct (suc (suc k)) l t hk hl = ground arith

no_plane-keeps : KeepsBalances table no_plane
no_plane-keeps p s s' h u k = rw (sym (ok-injective h)) refl

swap-covered_example : Solvent table 9 swapped after_swap
swap-covered_example =
    swap-covered ⦃m = exact⦄ table table-IsLedger no_plane no_plane-keeps env start balances 5 0 1
      1000 900 1005 (swapped, after_swap) (omega arith) start-Distinct start_covered swap_runs

abbrev after_strict : Table
after_strict = moved 2 9 5 1005 (moved 1 9 5 1000 (moved 1 5 9 2000 balances))

strict_runs :
    swap_strict_receive ⦃m = exact⦄ table no_plane env (start, balances) 5 0 1 1005 2000
    ≡ ok (1000, (swapped, after_strict))
unfolding swap_strict_receive input_at shrunk_at with_fee refund return_rest sync_reserves sync_all
    sync_reserve as_i128 xp get_precision_mul get_precision max_of scale_all multiply_all settle
    book_trade set get_y a get_d sum_of iterate_d next_d product_of is_within_one accumulate
    known_at get solve iterate_y next_y quotient_u256
strict_runs = refl

swap_strict_receive-covered_example : Solvent table 9 swapped after_strict
swap_strict_receive-covered_example =
    swap_strict_receive-covered ⦃m = exact⦄ table table-IsLedger no_plane no_plane-keeps env start
      balances 5 0 1 1005 2000 1000 (swapped, after_strict) (omega arith) start-Distinct
      start_covered strict_runs
