-- ===== src/Concentrated/Admin.antt =====
-- liquidity_pool_concentrated/src/contract/admin.rs: the switches and the protocol's fees.
use soroban_amm.Prelude.{ℕ, true, false, List, ltb}
use soroban_amm.Host.{
  Address, Env, Result, ok, ◌>>=◌, ◌>>◌, panic_if, require_auth, validation, fee_out_of_bounds,
}
use soroban_amm.Access.Roles.{Role}
use soroban_amm.Access.Store.{
  set_role_address, set_role_addresses, assert_address_has_role,
  require_pause_or_emergency_pause_admin_or_owner, require_pause_admin_or_owner,
  require_operations_admin_or_owner, require_system_fee_admin_or_owner,
}
use soroban_amm.Pool.State.{Outside}
use soroban_amm.Concentrated.Step.{fee_denominator}
use soroban_amm.Concentrated.State.{Pool, ProtocolFees}
use soroban_amm.Concentrated.Positions.{send}

unfoldable pub set_privileged_addrs :
    Env → Pool → Address → Address → Address → Address → List Address → Address → Result Pool
set_privileged_addrs e p admin rewards_admin operations_admin pause_admin emergency_pause_admins
      system_fee_admin =
    do
      require_auth e admin
      assert_address_has_role p.access admin Role.admin
      a₁ ← set_role_address p.access Role.rewards_admin rewards_admin
      a₂ ← set_role_address a₁ Role.operations_admin operations_admin
      a₃ ← set_role_address a₂ Role.pause_admin pause_admin
      a₄ ← set_role_addresses a₃ Role.emergency_pause_admin emergency_pause_admins
      a₅ ← set_role_address a₄ Role.system_fee_admin system_fee_admin
      ok (record p { access = a₅ })

unfoldable pub kill_deposit : Env → Pool → Address → Result Pool
kill_deposit e p admin = do
  require_auth e admin
  require_pause_or_emergency_pause_admin_or_owner p.access admin
  ok (record p { is_killed_deposit = true })

unfoldable pub kill_swap : Env → Pool → Address → Result Pool
kill_swap e p admin = do
  require_auth e admin
  require_pause_or_emergency_pause_admin_or_owner p.access admin
  ok (record p { is_killed_swap = true })

unfoldable pub kill_claim : Env → Pool → Address → Result Pool
kill_claim e p admin = do
  require_auth e admin
  require_pause_or_emergency_pause_admin_or_owner p.access admin
  ok (record p { claim_killed = true })

unfoldable pub unkill_deposit : Env → Pool → Address → Result Pool
unkill_deposit e p admin = do
  require_auth e admin
  require_pause_admin_or_owner p.access admin
  ok (record p { is_killed_deposit = false })

unfoldable pub unkill_swap : Env → Pool → Address → Result Pool
unkill_swap e p admin = do
  require_auth e admin
  require_pause_admin_or_owner p.access admin
  ok (record p { is_killed_swap = false })

unfoldable pub unkill_claim : Env → Pool → Address → Result Pool
unkill_claim e p admin = do
  require_auth e admin
  require_pause_admin_or_owner p.access admin
  ok (record p { claim_killed = false })

unfoldable pub set_protocol_fee_fraction : Env → Pool → Address → ℕ → Result Pool
set_protocol_fee_fraction e p admin new_fraction = do
  require_auth e admin
  require_operations_admin_or_owner p.access admin
  panic_if (ltb fee_denominator new_fraction) (validation fee_out_of_bounds)
  ok (record p { protocol_fee_fraction = new_fraction })

module _ {S : Type 0} (o : Outside S) where
  unfoldable pub claim_protocol_fees :
      Env → Pool × S → Address → Address → Result ((ℕ × ℕ) × (Pool × S))
  claim_protocol_fees e (p, s) admin destination = do
    require_auth e admin
    require_system_fee_admin_or_owner p.access admin
    let amount0 = p.protocol_fees.token0
    let amount1 = p.protocol_fees.token1
    s₁ ← send o p.token0 e.current_contract destination amount0 s
    s₂ ← send o p.token1 e.current_contract destination amount1 s₁
    let none_left : ProtocolFees = record { token0 = 0; token1 = 0 }
    ok ((amount0, amount1), (record p { protocol_fees = none_left }, s₂))
