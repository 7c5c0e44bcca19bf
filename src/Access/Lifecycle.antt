-- ===== src/Access/Lifecycle.antt =====
-- One transfer of ownership, from commit to its end.
use soroban_amm.Prelude.{ℕ, ◌+◌, ◌≤◌, ◌<◌, ◌≡◌, some, arith}
use soroban_amm.Host.{Address, Env, Result, ok, err, access, AccessControlError}
use soroban_amm.Access.Roles.{Role, DataKey, get_key}
use soroban_amm.Access.Store.{Access, set_at}
use soroban_amm.Access.Transfer.{
  admin_actions_delay, commit_transfer_ownership, apply_transfer_ownership,
  revert_transfer_ownership, get_transfer_ownership_deadline, has_value,
}

-- What a successful apply leaves: the role is handed over and the deadline cleared.
abbrev handed_over : Access → DataKey → DataKey → Address → Access
handed_over s key deadline_key new = record s {
  addresses = set_at s.addresses key new;
  times = set_at s.times deadline_key 0;
}

-- The outcomes of an apply at a time `now`, after a commit at the time `at` for the address `new`.
abbrev pub IsDelayed : ℕ → ℕ → Role → Address → Result (Address × Access) → Type 0
IsDelayed at now role new r =
    (now < at + admin_actions_delay → r ≡ err (access AccessControlError.action_not_ready_yet))
    × (at + admin_actions_delay ≤ now
        → (s' : Access) × (r ≡ ok (new, s'))
          × (s'.addresses (get_key role) ≡ some new)
          × (get_transfer_ownership_deadline s' role ≡ ok 0))

-- A committed transfer of a role that somebody holds is refused until three days have passed. From
-- then on an apply hands the role to the committed address and clears the deadline.
pub commit-apply :
    (e e' : Env) (s s' : Access) (role : Role) (new old : Address)
    → s.addresses (get_key role) ≡ some old
    → commit_transfer_ownership e s role new ≡ ok s'
    → IsDelayed e.timestamp e'.timestamp role new (apply_transfer_ownership e' s' role)
unfolding commit_transfer_ownership apply_transfer_ownership get_transfer_ownership_deadline get_key
    has_value
commit-apply e e' s s' Role.admin new old held h = (
  λ early. ground arith,
  λ late. (
    handed_over s' DataKey.admin DataKey.transfer_ownership_deadline new,
    ground arith,
    ground arith,
    ground arith,
  ),
)
commit-apply e e' s s' Role.emergency_admin new old held h = (
  λ early. ground arith,
  λ late. (
    handed_over s' DataKey.emergency_admin DataKey.em_admin_transfer_ownership_deadline new,
    ground arith,
    ground arith,
    ground arith,
  ),
)
commit-apply e e' s s' _ new old held h = absurd (cc)

-- While a transfer is pending a second commit is refused, and after a revert an apply finds nothing
-- to apply, whatever the time.
pub commit-revert :
    (e e' : Env) (s s' : Access) (role : Role) (new other : Address)
    → commit_transfer_ownership e s role new ≡ ok s'
    → (commit_transfer_ownership e' s' role other
        ≡ err (access AccessControlError.another_action_active))
      × ((s″ : Access) × (revert_transfer_ownership s' role ≡ ok s″)
          × (apply_transfer_ownership e' s″ role
              ≡ err (access AccessControlError.no_action_active)))
unfolding commit_transfer_ownership apply_transfer_ownership get_transfer_ownership_deadline
    revert_transfer_ownership has_value
commit-revert e e' s s' Role.admin new other h = (
  ground arith,
  (
    record s' { times = set_at s'.times DataKey.transfer_ownership_deadline 0 },
    ground arith,
    ground arith,
  ),
)
commit-revert e e' s s' Role.emergency_admin new other h = (
  ground arith,
  (
    record s' { times = set_at s'.times DataKey.em_admin_transfer_ownership_deadline 0 },
    ground arith,
    ground arith,
  ),
)
commit-revert e e' s s' _ new other h = absurd (cc)
