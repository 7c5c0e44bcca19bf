-- ===== src/Upgrade/Handlers.antt =====
-- The `UpgradeableContract` entry points over upgrade/src, as the contracts without code of others
-- to upgrade export them (liquidity_pool_plane/src/contract.rs here; locker_feed reads the same).
use soroban_amm.Host.{Address, Env, Result, ok, ◌>>◌, require_auth}
use soroban_amm.Access.Roles.{Role}
use soroban_amm.Access.Store.{Access, assert_address_has_role}
use soroban_amm.Upgrade
use soroban_amm.Upgrade.{Code, Hash}

unfoldable pub commit_upgrade : Env → Access → Code → Address → Hash → Result Code
commit_upgrade e s c admin new_wasm_hash = do
  require_auth e admin
  assert_address_has_role s admin Role.admin
  Upgrade.commit_upgrade e c new_wasm_hash

unfoldable pub apply_upgrade : Env → Access → Code → Address → Result (Hash × Code)
apply_upgrade e s c admin = do
  require_auth e admin
  assert_address_has_role s admin Role.admin
  Upgrade.apply_upgrade e s c

unfoldable pub revert_upgrade : Env → Access → Code → Address → Result Code
revert_upgrade e s c admin = do
  require_auth e admin
  assert_address_has_role s admin Role.admin
  ok (Upgrade.revert_upgrade c)
