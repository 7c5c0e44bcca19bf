-- ===== src/Access/Transfer.antt =====
-- access_control/src/transfer.rs: an ownership transfer is committed, and applied three days later.
use soroban_amm.Prelude.{ℕ, ◌+◌, ◌*◌, Bool, true, not, ◌||◌, ◌==◌, ltb}
use soroban_amm.Host.{
  Address, Env, Result, ok, ◌>>=◌, ◌>>◌, panic_if, or_panic, access, storage, bad_role_usage,
  value_not_initialized, AccessControlError, fit,
}
use soroban_amm.Access.Roles.{
  Role, DataKey, has_many_users, is_transfer_delayed, get_key, get_future_key,
  get_future_deadline_key,
}
use soroban_amm.Access.Store.{Access, set_at, unwrap_or, is_some}

abbrev pub admin_actions_delay : ℕ
admin_actions_delay = 3 * 86400

unfoldable pub get_transfer_ownership_deadline : Access → Role → Result ℕ
unfolding get_future_deadline_key
get_transfer_ownership_deadline s role = do
  key ← get_future_deadline_key role
  ok (unwrap_or (s.times key) 0)

unfoldable pub put_transfer_ownership_deadline : Access → Role → ℕ → Result Access
unfolding get_future_deadline_key set_at
put_transfer_ownership_deadline s role value = do
  key ← get_future_deadline_key role
  ok (record s { times = set_at s.times key value })

unfoldable pub get_future_address : Access → Role → Result Address
unfolding has_many_users is_transfer_delayed get_future_key
get_future_address s role = do
  panic_if (not (is_transfer_delayed role) || has_many_users role) (access bad_role_usage)
  key ← get_future_key role
  or_panic (s.addresses key) (access AccessControlError.no_action_active)

unfoldable pub commit_transfer_ownership : Env → Access → Role → Address → Result Access
unfolding has_many_users is_transfer_delayed get_future_key get_transfer_ownership_deadline
    put_transfer_ownership_deadline set_at
commit_transfer_ownership e s role future_address = do
  panic_if (not (is_transfer_delayed role) || has_many_users role) (access bad_role_usage)
  active ← get_transfer_ownership_deadline s role
  panic_if (not (active == 0)) (access AccessControlError.another_action_active)
  deadline ← fit 64 (e.timestamp + admin_actions_delay)
  s₁ ← put_transfer_ownership_deadline s role deadline
  key ← get_future_key role
  ok (record s₁ { addresses = set_at s₁.addresses key future_address })

-- `storage.has(key)`, whichever type the key's value has.
unfoldable pub has_value : Access → DataKey → Bool
has_value s key = is_some (s.addresses key) || is_some (s.address_lists key)

-- The first test of `apply_transfer_ownership`: `&&` reads the deadline only if the role is held.
unfoldable pub is_early : Env → Access → Role → Result Bool
unfolding has_value get_key get_transfer_ownership_deadline
is_early e s role = elim (has_value s (get_key role)) [
  | true ↦ do ok (ltb e.timestamp (← get_transfer_ownership_deadline s role))
  | held ↦ ok held
]

unfoldable pub apply_transfer_ownership : Env → Access → Role → Result (Address × Access)
unfolding is_early get_key get_future_key get_transfer_ownership_deadline
    put_transfer_ownership_deadline set_at
apply_transfer_ownership e s role = do
  early ← is_early e s role
  panic_if early (access AccessControlError.action_not_ready_yet)
  deadline ← get_transfer_ownership_deadline s role
  panic_if (deadline == 0) (access AccessControlError.no_action_active)
  s₁ ← put_transfer_ownership_deadline s role 0
  key ← get_future_key role
  future_address ← or_panic (s₁.addresses key) (storage value_not_initialized)
  ok (future_address, record s₁ { addresses = set_at s₁.addresses (get_key role) future_address })

unfoldable pub revert_transfer_ownership : Access → Role → Result Access
unfolding put_transfer_ownership_deadline
revert_transfer_ownership s role = put_transfer_ownership_deadline s role 0
