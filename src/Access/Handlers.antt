-- ===== src/Access/Handlers.antt =====
-- The `TransferableContract` entry points, as each contract with an administrator exports them
-- (token/src/contract.rs here; the pools' and the router's read the same).
use soroban_amm.Prelude.{Bool, true, false, ◌==◌}
use soroban_amm.Host.{
  Address, Env, Result, ok, ◌>>=◌, ◌>>◌, or_panic, require_auth, access, role_not_found,
}
use soroban_amm.Access.Roles.{Role, Symbol, from_symbol}
use soroban_amm.Access.Store.{Access, get_role_safe, assert_address_has_role, set_emergency_mode}
use soroban_amm.Access.Transfer
use soroban_amm.Access.Transfer.{get_transfer_ownership_deadline}

unfoldable pub commit_transfer_ownership : Env → Access → Address → Symbol → Address → Result Access
unfolding assert_address_has_role
commit_transfer_ownership e s admin role_name new_address = do
  require_auth e admin
  assert_address_has_role s admin Role.admin
  role ← from_symbol role_name
  Transfer.commit_transfer_ownership e s role new_address

unfoldable pub apply_transfer_ownership : Env → Access → Address → Symbol → Result Access
unfolding assert_address_has_role
apply_transfer_ownership e s admin role_name = do
  require_auth e admin
  assert_address_has_role s admin Role.admin
  role ← from_symbol role_name
  applied ← Transfer.apply_transfer_ownership e s role
  ok applied.1

unfoldable pub revert_transfer_ownership : Env → Access → Address → Symbol → Result Access
unfolding assert_address_has_role
revert_transfer_ownership e s admin role_name = do
  require_auth e admin
  assert_address_has_role s admin Role.admin
  role ← from_symbol role_name
  Transfer.revert_transfer_ownership s role

unfoldable pub get_future_address : Access → Symbol → Result Address
unfolding get_role_safe get_transfer_ownership_deadline
get_future_address s role_name = do
  role ← from_symbol role_name
  deadline ← get_transfer_ownership_deadline s role
  let current = get_role_safe s role >>= λ holder. or_panic holder (access role_not_found)
  let future = Transfer.get_future_address s role
  elim (deadline == 0) [ true ↦ current | false ↦ future ]

-- `UpgradeableContract::set_emergency_mode`
unfoldable pub set_emergency_mode_call : Env → Access → Address → Bool → Result Access
unfolding assert_address_has_role
set_emergency_mode_call e s emergency_admin value = do
  require_auth e emergency_admin
  assert_address_has_role s emergency_admin Role.emergency_admin
  ok (set_emergency_mode s value)
