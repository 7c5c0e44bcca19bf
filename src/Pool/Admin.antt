-- ===== src/Pool/Admin.antt =====
-- liquidity_pool/src/contract.rs: the administration of the pool, and the fees of the protocol.
use soroban_amm.Prelude.{ℕ, ◌&&◌, true, false, some, List, ltb, ◌==◌, if◌then◌else◌}
use soroban_amm.Host.{
  Address, Env, Result, ok, ◌>>=◌, ◌>>◌, panic_if, or_panic, require_auth, validation,
  fee_out_of_bounds, storage, value_not_initialized,
}
use soroban_amm.Host.Integer.{as_i128}
use soroban_amm.Access.Roles.{Role}
use soroban_amm.Access.Store.{
  set_role_address, set_role_addresses, assert_address_has_role,
  require_pause_or_emergency_pause_admin_or_owner, require_pause_admin_or_owner,
  require_operations_admin_or_owner, require_system_fee_admin_or_owner,
}
use soroban_amm.Upgrade
use soroban_amm.Upgrade.{Hash}
use soroban_amm.Pool.Formulas.{fee_multiplier}
use soroban_amm.Pool.State.{Pool, Outside}

unfoldable pub set_privileged_addrs :
    Env → Pool → Address → Address → Address → Address → List Address → Address → Result Pool
unfolding assert_address_has_role set_role_address set_role_addresses
set_privileged_addrs e p admin rewards_admin operations_admin pause_admin emergency_pause_admins
      system_fee_admin =
    do
      require_auth e admin
      assert_address_has_role p.access admin Role.admin
      a₁ ← set_role_address p.access Role.rewards_admin rewards_admin
      a₂ ← set_role_address a₁ Role.operations_admin operations_admin
      a₃ ← set_role_address a₂ Role.pause_admin pause_admin
      a₄ ← set_role_addresses a₃ Role.emergency_pause_admin emergency_pause_admins
      a₅ ← set_role_address a₄ Role.system_fee_admin system_fee_admin
      ok (record p { access = a₅ })

unfoldable pub kill_deposit : Env → Pool → Address → Result Pool
unfolding require_pause_or_emergency_pause_admin_or_owner
kill_deposit e p admin = do
  require_auth e admin
  require_pause_or_emergency_pause_admin_or_owner p.access admin
  ok (record p { is_killed_deposit = true })

unfoldable pub kill_swap : Env → Pool → Address → Result Pool
unfolding require_pause_or_emergency_pause_admin_or_owner
kill_swap e p admin = do
  require_auth e admin
  require_pause_or_emergency_pause_admin_or_owner p.access admin
  ok (record p { is_killed_swap = true })

unfoldable pub kill_claim : Env → Pool → Address → Result Pool
unfolding require_pause_or_emergency_pause_admin_or_owner
kill_claim e p admin = do
  require_auth e admin
  require_pause_or_emergency_pause_admin_or_owner p.access admin
  ok (record p { is_killed_claim = true })

unfoldable pub unkill_deposit : Env → Pool → Address → Result Pool
unfolding require_pause_admin_or_owner
unkill_deposit e p admin = do
  require_auth e admin
  require_pause_admin_or_owner p.access admin
  ok (record p { is_killed_deposit = false })

unfoldable pub unkill_swap : Env → Pool → Address → Result Pool
unfolding require_pause_admin_or_owner
unkill_swap e p admin = do
  require_auth e admin
  require_pause_admin_or_owner p.access admin
  ok (record p { is_killed_swap = false })

unfoldable pub unkill_claim : Env → Pool → Address → Result Pool
unfolding require_pause_admin_or_owner
unkill_claim e p admin = do
  require_auth e admin
  require_pause_admin_or_owner p.access admin
  ok (record p { is_killed_claim = false })

unfoldable pub set_protocol_fee_fraction : Env → Pool → Address → ℕ → Result Pool
unfolding require_operations_admin_or_owner
set_protocol_fee_fraction e p admin new_fraction = do
  require_auth e admin
  require_operations_admin_or_owner p.access admin
  panic_if (ltb fee_multiplier new_fraction) (validation fee_out_of_bounds)
  ok (record p { protocol_fee_fraction = new_fraction })

unfoldable pub commit_upgrade : Env → Pool → Address → Hash → Hash → Hash → Result Pool
unfolding assert_address_has_role
commit_upgrade e p admin new_wasm_hash token_new_wasm_hash gauges_new_wasm_hash = do
  require_auth e admin
  assert_address_has_role p.access admin Role.admin
  code ← Upgrade.commit_upgrade e p.code new_wasm_hash
  ok (record p {
    code = code;
    token_future_wasm = some token_new_wasm_hash;
    gauge_future_wasm = some gauges_new_wasm_hash;
  })

unfoldable pub revert_upgrade : Env → Pool → Address → Result Pool
unfolding assert_address_has_role
revert_upgrade e p admin = do
  require_auth e admin
  assert_address_has_role p.access admin Role.admin
  ok (record p { code = Upgrade.revert_upgrade p.code })

module _ {S : Type 0} (o : Outside S) where
  -- `token_upgrade` and `gauges_upgrade` are the calls of the share token and of the gauges.
  unfoldable pub apply_upgrade :
      (Address → Hash → S → Result S)
      → (Hash → S → Result S)
      → Env
      → Pool × S
      → Address
      → Result ((Hash × Hash) × (Pool × S))
  unfolding assert_address_has_role
  apply_upgrade token_upgrade gauges_upgrade e (p, s) admin = do
    require_auth e admin
    assert_address_has_role p.access admin Role.admin
    applied ← Upgrade.apply_upgrade e p.access p.code
    token_new_wasm_hash ← or_panic p.token_future_wasm (storage value_not_initialized)
    s₁ ← token_upgrade p.token_share token_new_wasm_hash s
    gauges_new_wasm_hash ← or_panic p.gauge_future_wasm (storage value_not_initialized)
    s₂ ← gauges_upgrade gauges_new_wasm_hash s₁
    ok ((applied.0, token_new_wasm_hash), (record p { code = applied.1 }, s₂))

  -- `if fee > 0 { token.transfer(pool, destination, fee) }`
  unfoldable pub pay_fee : Env → Address → Address → ℕ → S → Result S
  pay_fee e token destination fee s =
      let call = o.transfer token e.current_contract destination (as_i128 fee) s in
      if ltb 0 fee then call else ok s

  -- `claim_protocol_fees` after the authorization.
  unfoldable pub pay_fees : Env → Pool × S → Address → Result ((ℕ × ℕ) × (Pool × S))
  pay_fees e (p, s) destination = elim (p.protocol_fee_a == 0 && p.protocol_fee_b == 0) [
    | true ↦ ok ((0, 0), (p, s))
    | false ↦ do
      s₁ ← pay_fee e p.token_a destination p.protocol_fee_a s
      s₂ ← pay_fee e p.token_b destination p.protocol_fee_b s₁
      ok (
        (p.protocol_fee_a, p.protocol_fee_b),
        (record p { protocol_fee_a = 0; protocol_fee_b = 0 }, s₂),
      )
  ]

  unfoldable pub claim_protocol_fees :
      Env → Pool × S → Address → Address → Result ((ℕ × ℕ) × (Pool × S))
  unfolding require_system_fee_admin_or_owner
  claim_protocol_fees e (p, s) admin destination = do
    require_auth e admin
    require_system_fee_admin_or_owner p.access admin
    pay_fees e (p, s) destination
