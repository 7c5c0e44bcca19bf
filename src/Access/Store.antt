-- ===== src/Access/Store.antt =====
-- access_control/src/{management,access,emergency,utils}.rs: reading and setting who holds a role.
use soroban_amm.Prelude.{
  ℕ, Bool, true, false, not, ◌&&◌, ◌||◌, Option, none, some, List, [], ◌∷◌, ◌==◌, if◌then◌else◌,
}
use soroban_amm.Host.{
  Address, Result, ok, err, ◌>>=◌, ◌>>◌, guard, panic_if, or_panic, access, bad_role_usage,
  role_not_found, AccessControlError,
}
use soroban_amm.Access.Roles.{
  Role, DataKey, has_many_users, is_transfer_delayed, get_key, key_index,
}

-- The part of the instance storage that the crate owns. The values of one key have one type: an
-- address, a list of addresses, a time, or the flag of emergency mode.
pub record Access : Type 0 where
  pub addresses : DataKey → Option Address
  pub address_lists : DataKey → Option (List Address)
  pub times : DataKey → Option ℕ
  pub emergency_mode : Option Bool

-- `storage.set(key, value)` at one of the maps.
unfoldable pub set_at {ℓ} : {A : Type ℓ} → (DataKey → Option A) → DataKey → A → DataKey → Option A
unfolding key_index
set_at f k v j = if key_index k == key_index j then some v else f j

-- `Option::unwrap_or`
abbrev pub unwrap_or {ℓ} : {A : Type ℓ} → Option A → A → A
unwrap_or (some a) d = a
unwrap_or none d = d

abbrev pub is_some {ℓ} : {A : Type ℓ} → Option A → Bool
is_some (some a) = true
is_some none = false

-- `SingleAddressManagementTrait::get_role_safe`
unfoldable pub get_role_safe : Access → Role → Result (Option Address)
unfolding has_many_users get_key
get_role_safe s role = do
  panic_if (has_many_users role) (access bad_role_usage)
  ok (s.addresses (get_key role))

-- `SingleAddressManagementTrait::get_role`
unfoldable pub get_role : Access → Role → Result Address
unfolding get_role_safe
get_role s Role.admin = do or_panic (← get_role_safe s Role.admin) (access role_not_found)
get_role s _ = err (access bad_role_usage)

-- `SingleAddressManagementTrait::set_role_address`
unfoldable pub set_role_address : Access → Role → Address → Result Access
unfolding has_many_users is_transfer_delayed get_role_safe get_key set_at
set_role_address s role address = do
  panic_if (has_many_users role) (access bad_role_usage)
  addr ← get_role_safe s role
  panic_if (is_some addr && is_transfer_delayed role) (access bad_role_usage)
  ok (record s { addresses = set_at s.addresses (get_key role) address })

-- `MultipleAddressesManagementTrait::get_role_addresses`
unfoldable pub get_role_addresses : Access → Role → Result (List Address)
unfolding has_many_users get_key
get_role_addresses s role = do
  panic_if (not (has_many_users role)) (access bad_role_usage)
  ok (unwrap_or (s.address_lists (get_key role)) [])

-- `MultipleAddressesManagementTrait::set_role_addresses`
unfoldable pub set_role_addresses : Access → Role → List Address → Result Access
unfolding has_many_users is_transfer_delayed get_key set_at
set_role_addresses s role addresses = do
  panic_if (not (has_many_users role) || is_transfer_delayed role) (access bad_role_usage)
  ok (record s { address_lists = set_at s.address_lists (get_key role) addresses })

-- `Vec::contains`
abbrev pub contains : List Address → Address → Bool
contains [] a = false
contains (x ∷ xs) a = a == x || contains xs a

abbrev pub holds : Option Address → Address → Bool
holds (some role_address) address = address == role_address
holds none address = false

-- `AccessControlTrait::address_has_role`
unfoldable pub address_has_role : Access → Address → Role → Result Bool
unfolding has_many_users get_role_addresses get_role_safe
address_has_role s address role = elim (has_many_users role) [
  | true ↦ do ok (contains (← get_role_addresses s role) address)
  | false ↦ do ok (holds (← get_role_safe s role) address)
]

-- `AccessControlTrait::assert_address_has_role`
unfoldable pub assert_address_has_role : Access → Address → Role → Result (Unit {0})
unfolding address_has_role
assert_address_has_role s address role = do
  guard (← address_has_role s address role) (access AccessControlError.unauthorized)

-- `a || b || ... || panic(Unauthorized)` over roles, which is how each function of
-- access_control/src/utils.rs reads.
unfoldable pub require_any : Access → Address → List Role → Result (Unit {0})
unfolding address_has_role
require_any s address [] = err (access AccessControlError.unauthorized)
require_any s address (role ∷ roles) =
    let rest = require_any s address roles in
    address_has_role s address role >>= λ has. if has then ok tt else rest

unfoldable pub require_rewards_admin_or_owner : Access → Address → Result (Unit {0})
unfolding require_any
require_rewards_admin_or_owner s a = require_any s a (Role.admin ∷ Role.rewards_admin ∷ [])

unfoldable pub require_operations_admin_or_owner : Access → Address → Result (Unit {0})
unfolding require_any
require_operations_admin_or_owner s a = require_any s a (Role.operations_admin ∷ Role.admin ∷ [])

unfoldable pub require_system_fee_admin_or_owner : Access → Address → Result (Unit {0})
unfolding require_any
require_system_fee_admin_or_owner s a = require_any s a (Role.system_fee_admin ∷ Role.admin ∷ [])

unfoldable pub require_pause_or_emergency_pause_admin_or_owner :
    Access → Address → Result (Unit {0})
unfolding require_any
require_pause_or_emergency_pause_admin_or_owner s a =
    require_any s a (Role.pause_admin ∷ Role.emergency_pause_admin ∷ Role.admin ∷ [])

unfoldable pub require_pause_admin_or_owner : Access → Address → Result (Unit {0})
unfolding require_any
require_pause_admin_or_owner s a = require_any s a (Role.pause_admin ∷ Role.admin ∷ [])

-- `get_emergency_mode`
abbrev pub get_emergency_mode : Access → Bool
get_emergency_mode s = unwrap_or s.emergency_mode false

-- `set_emergency_mode`
abbrev pub set_emergency_mode : Access → Bool → Access
set_emergency_mode s value = record s { emergency_mode = some value }
