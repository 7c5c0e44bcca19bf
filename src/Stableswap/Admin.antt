-- ===== src/Stableswap/Admin.antt =====
-- liquidity_pool_stableswap/src/contract.rs: the administration of the pool.
use soroban_amm.Prelude.{ℕ, true, false, List, ltb}
use soroban_amm.Host.{
  Address, Env, Result, ok, ◌>>=◌, ◌>>◌, panic_if, require_auth, validation, fee_out_of_bounds,
}
use soroban_amm.Access.Roles.{Role}
use soroban_amm.Access.Store.{
  set_role_address, set_role_addresses, assert_address_has_role,
  require_pause_or_emergency_pause_admin_or_owner, require_pause_admin_or_owner,
  require_operations_admin_or_owner,
}
use soroban_amm.Stableswap.State.{Stable, fee_denominator}

unfoldable pub set_privileged_addrs :
    Env → Stable → Address → Address → Address → Address → List Address → Address → Result Stable
unfolding assert_address_has_role set_role_address set_role_addresses
set_privileged_addrs e p admin rewards_admin operations_admin pause_admin emergency_pause_admins
      system_fee_admin =
    do
      require_auth e admin
      assert_address_has_role p.access admin Role.admin
      a₁ ← set_role_address p.access Role.rewards_admin rewards_admin
      a₂ ← set_role_address a₁ Role.operations_admin operations_admin
      a₃ ← set_role_address a₂ Role.pause_admin pause_admin
      a₄ ← set_role_addresses a₃ Role.emergency_pause_admin emergency_pause_admins
      a₅ ← set_role_address a₄ Role.system_fee_admin system_fee_admin
      ok (record p { access = a₅ })

unfoldable pub kill_deposit : Env → Stable → Address → Result Stable
unfolding require_pause_or_emergency_pause_admin_or_owner
kill_deposit e p admin = do
  require_auth e admin
  require_pause_or_emergency_pause_admin_or_owner p.access admin
  ok (record p { is_killed_deposit = true })

unfoldable pub kill_swap : Env → Stable → Address → Result Stable
unfolding require_pause_or_emergency_pause_admin_or_owner
kill_swap e p admin = do
  require_auth e admin
  require_pause_or_emergency_pause_admin_or_owner p.access admin
  ok (record p { is_killed_swap = true })

unfoldable pub kill_claim : Env → Stable → Address → Result Stable
unfolding require_pause_or_emergency_pause_admin_or_owner
kill_claim e p admin = do
  require_auth e admin
  require_pause_or_emergency_pause_admin_or_owner p.access admin
  ok (record p { is_killed_claim = true })

unfoldable pub unkill_deposit : Env → Stable → Address → Result Stable
unfolding require_pause_admin_or_owner
unkill_deposit e p admin = do
  require_auth e admin
  require_pause_admin_or_owner p.access admin
  ok (record p { is_killed_deposit = false })

unfoldable pub unkill_swap : Env → Stable → Address → Result Stable
unfolding require_pause_admin_or_owner
unkill_swap e p admin = do
  require_auth e admin
  require_pause_admin_or_owner p.access admin
  ok (record p { is_killed_swap = false })

unfoldable pub unkill_claim : Env → Stable → Address → Result Stable
unfolding require_pause_admin_or_owner
unkill_claim e p admin = do
  require_auth e admin
  require_pause_admin_or_owner p.access admin
  ok (record p { is_killed_claim = false })

unfoldable pub set_protocol_fee_fraction : Env → Stable → Address → ℕ → Result Stable
unfolding require_operations_admin_or_owner
set_protocol_fee_fraction e p admin new_fraction = do
  require_auth e admin
  require_operations_admin_or_owner p.access admin
  panic_if (ltb fee_denominator new_fraction) (validation fee_out_of_bounds)
  ok (record p { protocol_fee_fraction = new_fraction })
