-- ===== src/FeesCollector.antt =====
-- fees_collector/src/contract.rs: the address that protocol fees can be sent to, with an owner.
use soroban_amm.Prelude.{Bool}
use soroban_amm.Host.{Address, Env, Result, ok, ◌>>=◌, ◌>>◌, panic_if, access, admin_already_set}
use soroban_amm.Access.Roles.{Role, Symbol}
use soroban_amm.Access.Store.{Access, is_some, get_role_safe, set_role_address}
use soroban_amm.Access.Handlers as Owners
use soroban_amm.Upgrade.{Code, Hash}
use soroban_amm.Upgrade.Handlers as Codes

pub record FeesCollector : Type 0 where
  pub access : Access
  pub code : Code

unfoldable pub init_admin : FeesCollector → Address → Result FeesCollector
init_admin p account = do
  holder ← get_role_safe p.access Role.admin
  panic_if (is_some holder) (access admin_already_set)
  store ← set_role_address p.access Role.admin account
  ok (record p { access = store })

unfoldable pub commit_upgrade : Env → FeesCollector → Address → Hash → Result FeesCollector
commit_upgrade e p admin new_wasm_hash = do
  code ← Codes.commit_upgrade e p.access p.code admin new_wasm_hash
  ok (record p { code = code })

unfoldable pub apply_upgrade : Env → FeesCollector → Address → Result (Hash × FeesCollector)
apply_upgrade e p admin = do
  applied ← Codes.apply_upgrade e p.access p.code admin
  ok (applied.0, record p { code = applied.1 })

unfoldable pub revert_upgrade : Env → FeesCollector → Address → Result FeesCollector
revert_upgrade e p admin = do
  code ← Codes.revert_upgrade e p.access p.code admin
  ok (record p { code = code })

unfoldable pub set_emergency_mode : Env → FeesCollector → Address → Bool → Result FeesCollector
set_emergency_mode e p emergency_admin value = do
  store ← Owners.set_emergency_mode_call e p.access emergency_admin value
  ok (record p { access = store })

unfoldable pub commit_transfer_ownership :
    Env → FeesCollector → Address → Symbol → Address → Result FeesCollector
commit_transfer_ownership e p admin role_name new_address = do
  store ← Owners.commit_transfer_ownership e p.access admin role_name new_address
  ok (record p { access = store })

unfoldable pub apply_transfer_ownership :
    Env → FeesCollector → Address → Symbol → Result FeesCollector
apply_transfer_ownership e p admin role_name = do
  store ← Owners.apply_transfer_ownership e p.access admin role_name
  ok (record p { access = store })

unfoldable pub revert_transfer_ownership :
    Env → FeesCollector → Address → Symbol → Result FeesCollector
revert_transfer_ownership e p admin role_name = do
  store ← Owners.revert_transfer_ownership e p.access admin role_name
  ok (record p { access = store })

unfoldable pub get_future_address : FeesCollector → Symbol → Result Address
get_future_address p role_name = Owners.get_future_address p.access role_name
