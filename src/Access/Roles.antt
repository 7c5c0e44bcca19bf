-- ===== src/Access/Roles.antt =====
-- access_control/src/role.rs, and the keys of access_control/src/storage.rs.
use text.Mathlib.Text.{◌==◌ as str_eq}
use Prim.Native.String.{String}
use soroban_amm.Prelude.{ℕ, Bool, true, false, if◌then◌else◌}
use soroban_amm.Host.{Result, ok, err, access, bad_role_usage}

pub data Role : Type 0 where
  admin emergency_admin rewards_admin operations_admin pause_admin : Role
  emergency_pause_admin system_fee_admin : Role

-- `Role::has_many_users`
unfoldable pub has_many_users : Role → Bool
has_many_users Role.emergency_pause_admin = true
has_many_users _ = false

-- `Role::is_transfer_delayed`
unfoldable pub is_transfer_delayed : Role → Bool
is_transfer_delayed Role.admin = true
is_transfer_delayed Role.emergency_admin = true
is_transfer_delayed _ = false

-- A Soroban `Symbol`.
abbrev pub Symbol : Type 0
Symbol = String

-- `Role::as_symbol`
unfoldable pub as_symbol : Role → Symbol
as_symbol Role.admin = "Admin"
as_symbol Role.emergency_admin = "EmergencyAdmin"
as_symbol Role.rewards_admin = "RewardsAdmin"
as_symbol Role.operations_admin = "OperationsAdmin"
as_symbol Role.pause_admin = "PauseAdmin"
as_symbol Role.emergency_pause_admin = "EmergencyPauseAdmin"
as_symbol Role.system_fee_admin = "SystemFeeAdmin"

-- `Role::from_symbol`
unfoldable pub from_symbol : Symbol → Result Role
from_symbol value =
    if str_eq value "Admin"
    then ok Role.admin
    else if str_eq value "EmergencyAdmin"
    then ok Role.emergency_admin
    else if str_eq value "RewardsAdmin"
    then ok Role.rewards_admin
    else if str_eq value "OperationsAdmin"
    then ok Role.operations_admin
    else if str_eq value "PauseAdmin"
    then ok Role.pause_admin
    else if str_eq value "EmergencyPauseAdmin"
    then ok Role.emergency_pause_admin
    else if str_eq value "SystemFeeAdmin"
    then ok Role.system_fee_admin
    else err (access bad_role_usage)

-- `DataKey` of access_control/src/storage.rs
pub data DataKey : Type 0 where
  admin emergency_admin operator operations_admin pause_admin em_pause_admins : DataKey
  system_fee_admin future_admin future_emergency_admin transfer_ownership_deadline : DataKey
  em_admin_transfer_ownership_deadline emergency_mode : DataKey

-- `StorageTrait::get_key`
unfoldable pub get_key : Role → DataKey
get_key Role.admin = DataKey.admin
get_key Role.emergency_admin = DataKey.emergency_admin
get_key Role.rewards_admin = DataKey.operator
get_key Role.operations_admin = DataKey.operations_admin
get_key Role.pause_admin = DataKey.pause_admin
get_key Role.emergency_pause_admin = DataKey.em_pause_admins
get_key Role.system_fee_admin = DataKey.system_fee_admin

-- `StorageTrait::get_future_key`
unfoldable pub get_future_key : Role → Result DataKey
get_future_key Role.admin = ok DataKey.future_admin
get_future_key Role.emergency_admin = ok DataKey.future_emergency_admin
get_future_key _ = err (access bad_role_usage)

-- `StorageTrait::get_future_deadline_key`
unfoldable pub get_future_deadline_key : Role → Result DataKey
get_future_deadline_key Role.admin = ok DataKey.transfer_ownership_deadline
get_future_deadline_key Role.emergency_admin = ok DataKey.em_admin_transfer_ownership_deadline
get_future_deadline_key _ = err (access bad_role_usage)

-- The place of a key in the enum: keys are equal when their places are.
unfoldable pub key_index : DataKey → ℕ
key_index DataKey.admin = 0
key_index DataKey.emergency_admin = 1
key_index DataKey.operator = 2
key_index DataKey.operations_admin = 3
key_index DataKey.pause_admin = 4
key_index DataKey.em_pause_admins = 5
key_index DataKey.system_fee_admin = 6
key_index DataKey.future_admin = 7
key_index DataKey.future_emergency_admin = 8
key_index DataKey.transfer_ownership_deadline = 9
key_index DataKey.em_admin_transfer_ownership_deadline = 10
key_index DataKey.emergency_mode = 11
