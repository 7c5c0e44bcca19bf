-- ===== src/Stableswap/Fee.antt =====
-- liquidity_pool_stableswap/src/contract.rs: the delayed change of the swap fee.
pub mod Delay
use soroban_amm.Prelude.{ℕ, ◌+◌, ◌-◌, some, not, ltb, ◌==◌}
use soroban_amm.Host.{
  Address, Env, Result, ok, ◌>>=◌, ◌>>◌, panic_if, or_panic, require_auth, fit, stableswap,
  StableswapError, validation, fee_out_of_bounds, storage, value_not_initialized,
}
use soroban_amm.Access.Store.{require_operations_admin_or_owner}
use soroban_amm.Access.Transfer.{admin_actions_delay}
use soroban_amm.Stableswap.State.{Stable, fee_denominator}

unfoldable pub commit_new_fee : Env → Stable → Address → ℕ → Result Stable
unfolding require_operations_admin_or_owner
commit_new_fee e p admin new_fee = do
  require_auth e admin
  require_operations_admin_or_owner p.access admin
  panic_if (not (p.admin_actions_deadline == 0)) (stableswap StableswapError.another_action_active)
  panic_if (ltb (fee_denominator - 1) new_fee) (validation fee_out_of_bounds)
  deadline ← fit 64 (e.timestamp + admin_actions_delay)
  ok (record p { admin_actions_deadline = deadline; future_fee = some new_fee })

unfoldable pub revert_new_parameters : Env → Stable → Address → Result Stable
unfolding require_operations_admin_or_owner
revert_new_parameters e p admin = do
  require_auth e admin
  require_operations_admin_or_owner p.access admin
  ok (record p { admin_actions_deadline = 0 })

module _ {S : Type 0} (update_plane : Stable → S → Result S) where
  unfoldable pub apply_new_fee : Env → Stable × S → Address → Result (Stable × S)
  unfolding require_operations_admin_or_owner
  apply_new_fee e (p, s) admin = do
    require_auth e admin
    require_operations_admin_or_owner p.access admin
    panic_if (ltb e.timestamp p.admin_actions_deadline)
        (stableswap StableswapError.action_not_ready_yet)
    panic_if (p.admin_actions_deadline == 0) (stableswap StableswapError.no_action_active)
    fee ← or_panic p.future_fee (storage value_not_initialized)
    let applied = record p { admin_actions_deadline = 0; fee = fee }
    s' ← update_plane applied s
    ok (applied, s')
