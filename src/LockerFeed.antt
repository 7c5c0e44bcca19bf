-- ===== src/LockerFeed.antt =====
-- locker_feed/src/contract.rs: the feed of the locked supply, which the operations admin sets.
use soroban_amm.Prelude.{ℕ, Bool, Option, some}
use soroban_amm.Host.{
  Address, Env, Result, ok, ◌>>=◌, ◌>>◌, panic_if, require_auth, feed, FeedError,
}
use soroban_amm.Access.Roles.{Role, Symbol}
use soroban_amm.Access.Store.{
  Access, is_some, get_role_safe, set_role_address, assert_address_has_role, unwrap_or,
}
use soroban_amm.Access.Transfer
use soroban_amm.Access.Handlers as Owners
use soroban_amm.Upgrade.{Code, Hash}
use soroban_amm.Upgrade.Handlers as Codes

pub record LockerFeed : Type 0 where
  pub access : Access
  pub code : Code
  pub total_supply : Option ℕ

-- `__constructor`
unfoldable pub construct : Env → LockerFeed → Address → Address → Address → Result LockerFeed
construct e p admin operations_admin emergency_admin = do
  holder ← get_role_safe p.access Role.admin
  panic_if (is_some holder) (feed FeedError.already_initialized)
  with_admin ← set_role_address p.access Role.admin admin
  with_operations ← set_role_address with_admin Role.operations_admin operations_admin
  committed ←
      Transfer.commit_transfer_ownership e with_operations Role.emergency_admin emergency_admin
  applied ← Transfer.apply_transfer_ownership e committed Role.emergency_admin
  ok (record p { access = applied.1 })

unfoldable pub set_total_supply : Env → LockerFeed → Address → ℕ → Result LockerFeed
set_total_supply e p operations_admin supply = do
  require_auth e operations_admin
  assert_address_has_role p.access operations_admin Role.operations_admin
  ok (record p { total_supply = some supply })

abbrev pub get_total_supply : LockerFeed → ℕ
get_total_supply p = unwrap_or p.total_supply 0

unfoldable pub set_privileged_addrs : Env → LockerFeed → Address → Address → Result LockerFeed
set_privileged_addrs e p admin operations_admin = do
  require_auth e admin
  assert_address_has_role p.access admin Role.admin
  store ← set_role_address p.access Role.operations_admin operations_admin
  ok (record p { access = store })

unfoldable pub commit_upgrade : Env → LockerFeed → Address → Hash → Result LockerFeed
commit_upgrade e p admin new_wasm_hash = do
  code ← Codes.commit_upgrade e p.access p.code admin new_wasm_hash
  ok (record p { code = code })

unfoldable pub apply_upgrade : Env → LockerFeed → Address → Result (Hash × LockerFeed)
apply_upgrade e p admin = do
  applied ← Codes.apply_upgrade e p.access p.code admin
  ok (applied.0, record p { code = applied.1 })

unfoldable pub revert_upgrade : Env → LockerFeed → Address → Result LockerFeed
revert_upgrade e p admin = do
  code ← Codes.revert_upgrade e p.access p.code admin
  ok (record p { code = code })

unfoldable pub set_emergency_mode : Env → LockerFeed → Address → Bool → Result LockerFeed
set_emergency_mode e p emergency_admin value = do
  store ← Owners.set_emergency_mode_call e p.access emergency_admin value
  ok (record p { access = store })

unfoldable pub commit_transfer_ownership :
    Env → LockerFeed → Address → Symbol → Address → Result LockerFeed
commit_transfer_ownership e p admin role_name new_address = do
  store ← Owners.commit_transfer_ownership e p.access admin role_name new_address
  ok (record p { access = store })

unfoldable pub apply_transfer_ownership : Env → LockerFeed → Address → Symbol → Result LockerFeed
apply_transfer_ownership e p admin role_name = do
  store ← Owners.apply_transfer_ownership e p.access admin role_name
  ok (record p { access = store })

unfoldable pub revert_transfer_ownership : Env → LockerFeed → Address → Symbol → Result LockerFeed
revert_transfer_ownership e p admin role_name = do
  store ← Owners.revert_transfer_ownership e p.access admin role_name
  ok (record p { access = store })

unfoldable pub get_future_address : LockerFeed → Symbol → Result Address
get_future_address p role_name = Owners.get_future_address p.access role_name
