-- ===== src/Access/Delay.antt =====
-- Every history of calls: nobody takes a held ownership in less than three days.
use soroban_amm.Prelude.{ℕ, ◌+◌, ◌≤◌, ◌<◌, ◌≡◌, ◌⊎◌, Bool, some, List, arith}
use soroban_amm.Host.{Address, Env, ok}
use soroban_amm.Access.Roles.{Role, DataKey, get_key}
use soroban_amm.Access.Store.{
  Access, unwrap_or, set_role_address, set_role_addresses, set_emergency_mode,
}
use soroban_amm.Access.Transfer.{
  admin_actions_delay, commit_transfer_ownership, apply_transfer_ownership,
  revert_transfer_ownership, get_transfer_ownership_deadline, has_value,
}

-- One call at the ledger's time, by anybody, or the passing of time.
pub data Step : ℕ × Access → ℕ × Access → Type 0 where
  wait : {s : Access} {now later : ℕ} → now ≤ later → Step (now, s) (later, s)
  commit :
      {s s' : Access} (e : Env) (role : Role) (a : Address)
      → commit_transfer_ownership e s role a ≡ ok s'
      → Step (e.timestamp, s) (e.timestamp, s')
  apply :
      {s s' : Access} (e : Env) (role : Role) (a : Address)
      → apply_transfer_ownership e s role ≡ ok (a, s')
      → Step (e.timestamp, s) (e.timestamp, s')
  revert :
      {s s' : Access} {now : ℕ} (role : Role)
      → revert_transfer_ownership s role ≡ ok s'
      → Step (now, s) (now, s')
  set_one :
      {s s' : Access} {now : ℕ} (role : Role) (a : Address)
      → set_role_address s role a ≡ ok s'
      → Step (now, s) (now, s')
  set_many :
      {s s' : Access} {now : ℕ} (role : Role) (l : List Address)
      → set_role_addresses s role l ≡ ok s'
      → Step (now, s) (now, s')
  set_mode : {s : Access} {now : ℕ} (value : Bool) → Step (now, s) (now, set_emergency_mode s value)

pub data Reach (s : ℕ × Access) : ℕ × Access → Type 0 where
  here : Reach s s
  next : {t u : ℕ × Access} → Reach s t → Step t u → Reach s u

-- The two roles whose transfer is delayed, and the key of the deadline of each.
pub data Ownership : Type 0 where
  owner emergency : Ownership

abbrev pub role_of : Ownership → Role
role_of owner = Role.admin
role_of emergency = Role.emergency_admin

abbrev deadline_key : Ownership → DataKey
deadline_key owner = DataKey.transfer_ownership_deadline
deadline_key emergency = DataKey.em_admin_transfer_ownership_deadline

module _ (o : Ownership) (start : ℕ) (holder : Address) where
  -- The holder is in place, and a deadline that is set lies three days after `start` at least.
  abbrev IsHeld : Access → Type 0
  IsHeld s =
      (s.addresses (get_key (role_of o)) ≡ some holder)
      × ((unwrap_or (s.times (deadline_key o)) 0 ≡ 0)
          ⊎ (start + admin_actions_delay ≤ unwrap_or (s.times (deadline_key o)) 0))

  abbrev IsGuarded : ℕ × Access → Type 0
  IsGuarded (now, s) = (start ≤ now) × ((start + admin_actions_delay ≤ now) ⊎ IsHeld s)

commit-IsGuarded :
    (o : Ownership) (start : ℕ) (holder : Address) (e : Env) (s s' : Access) (role : Role)
    (a : Address)
    → commit_transfer_ownership e s role a ≡ ok s'
    → IsGuarded o start holder (e.timestamp, s)
    → IsGuarded o start holder (e.timestamp, s')
unfolding commit_transfer_ownership get_key
commit-IsGuarded owner start holder e s s' Role.admin a h g = ground arith
commit-IsGuarded emergency start holder e s s' Role.admin a h g = ground arith
commit-IsGuarded owner start holder e s s' Role.emergency_admin a h g = ground arith
commit-IsGuarded emergency start holder e s s' Role.emergency_admin a h g = ground arith
commit-IsGuarded o start holder e s s' _ a h g = absurd (cc)

apply-IsGuarded :
    (o : Ownership) (start : ℕ) (holder : Address) (e : Env) (s s' : Access) (role : Role)
    (a : Address)
    → apply_transfer_ownership e s role ≡ ok (a, s')
    → IsGuarded o start holder (e.timestamp, s)
    → IsGuarded o start holder (e.timestamp, s')
unfolding apply_transfer_ownership get_key has_value
apply-IsGuarded owner start holder e s s' Role.admin a h g = ground arith
apply-IsGuarded emergency start holder e s s' Role.admin a h g = ground arith
apply-IsGuarded owner start holder e s s' Role.emergency_admin a h g = ground arith
apply-IsGuarded emergency start holder e s s' Role.emergency_admin a h g = ground arith
apply-IsGuarded o start holder e s s' _ a h g = ground arith

revert-IsGuarded :
    (o : Ownership) (start : ℕ) (holder : Address) (now : ℕ) (s s' : Access) (role : Role)
    → revert_transfer_ownership s role ≡ ok s'
    → IsGuarded o start holder (now, s)
    → IsGuarded o start holder (now, s')
unfolding revert_transfer_ownership get_key
revert-IsGuarded owner start holder now s s' Role.admin h g = ground arith
revert-IsGuarded emergency start holder now s s' Role.admin h g = ground arith
revert-IsGuarded owner start holder now s s' Role.emergency_admin h g = ground arith
revert-IsGuarded emergency start holder now s s' Role.emergency_admin h g = ground arith
revert-IsGuarded o start holder now s s' _ h g = absurd (cc)

set_one-IsGuarded :
    (o : Ownership) (start : ℕ) (holder : Address) (now : ℕ) (s s' : Access) (role : Role)
    (a : Address)
    → set_role_address s role a ≡ ok s'
    → IsGuarded o start holder (now, s)
    → IsGuarded o start holder (now, s')
unfolding set_role_address get_key
set_one-IsGuarded owner start holder now s s' Role.admin a h g = ground arith
set_one-IsGuarded emergency start holder now s s' Role.admin a h g = ground arith
set_one-IsGuarded owner start holder now s s' _ a h g = ground arith
set_one-IsGuarded emergency start holder now s s' _ a h g = ground arith

set_many-IsGuarded :
    (o : Ownership) (start : ℕ) (holder : Address) (now : ℕ) (s s' : Access) (role : Role)
    (l : List Address)
    → set_role_addresses s role l ≡ ok s'
    → IsGuarded o start holder (now, s)
    → IsGuarded o start holder (now, s')
unfolding set_role_addresses get_key
set_many-IsGuarded owner start holder now s s' Role.admin l h g = ground arith
set_many-IsGuarded emergency start holder now s s' Role.admin l h g = ground arith
set_many-IsGuarded owner start holder now s s' _ l h g = ground arith
set_many-IsGuarded emergency start holder now s s' _ l h g = ground arith

Step-IsGuarded :
    (o : Ownership) (start : ℕ) (holder : Address) {t u : ℕ × Access}
    → Step t u
    → IsGuarded o start holder t
    → IsGuarded o start holder u
Step-IsGuarded o start holder (wait le) g = ground arith
Step-IsGuarded o start holder (commit e role a h) g =
    commit-IsGuarded o start holder e _ _ role a h g
Step-IsGuarded o start holder (apply e role a h) g = apply-IsGuarded o start holder e _ _ role a h g
Step-IsGuarded o start holder (revert role h) g = revert-IsGuarded o start holder _ _ _ role h g
Step-IsGuarded o start holder (set_one role a h) g =
    set_one-IsGuarded o start holder _ _ _ role a h g
Step-IsGuarded o start holder (set_many role l h) g =
    set_many-IsGuarded o start holder _ _ _ role l h g
Step-IsGuarded o start holder (set_mode value) g = g

Reach-IsGuarded :
    (o : Ownership) (start : ℕ) (holder : Address) {t u : ℕ × Access}
    → IsGuarded o start holder t
    → Reach t u
    → IsGuarded o start holder u
Reach-IsGuarded o start holder g here = g
Reach-IsGuarded o start holder g (next r st) =
    Step-IsGuarded o start holder st (Reach-IsGuarded o start holder g r)

-- From a state with no transfer pending, after any sequence of calls by anybody that ends less than
-- three days later, the holder of the ownership (the admin, or the emergency admin) is unchanged.
pub Reach-holder :
    (o : Ownership) (start now : ℕ) (holder : Address) (s s' : Access)
    → s.addresses (get_key (role_of o)) ≡ some holder
    → get_transfer_ownership_deadline s (role_of o) ≡ ok 0
    → Reach (start, s) (now, s')
    → now < start + admin_actions_delay
    → s'.addresses (get_key (role_of o)) ≡ some holder
unfolding get_transfer_ownership_deadline
Reach-holder owner start now holder s s' held idle r soon =
    let g : IsGuarded owner start holder (now, s') =
      Reach-IsGuarded owner start holder (ground arith) r in
    ground arith
Reach-holder emergency start now holder s s' held idle r soon =
    let g : IsGuarded emergency start holder (now, s') =
      Reach-IsGuarded emergency start holder (ground arith) r in
    ground arith
