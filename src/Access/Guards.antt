-- ===== src/Access/Guards.antt =====
-- Who passes the guards of access_control/src/utils.rs.
use soroban_amm.Prelude.{
  ◌≡◌, refl, ◌↔◌, ◌⊎◌, inl, inr, true, false, some, List, [], ◌∷◌, arith, Bool-cases, Option-cases,
  ==_iff, ◌==◌,
}
use soroban_amm.Host.{Address, ok, err, access, AccessControlError}
use soroban_amm.Access.Roles.{Role, DataKey}
use soroban_amm.Access.Store.{
  Access, contains, address_has_role, require_any, require_pause_admin_or_owner,
  require_pause_or_emergency_pause_admin_or_owner,
}

abbrev pub Listed : Address → List Address → Type 0
Listed a [] = ⊥
Listed a (x ∷ xs) = (a ≡ x) ⊎ Listed a xs

-- The address stands in the storage as the holder of the role, or as one of its holders.
abbrev pub IsHolder : Access → Address → Role → Type 0
IsHolder s a Role.emergency_pause_admin =
    (l : List Address) × (s.address_lists DataKey.em_pause_admins ≡ some l) × Listed a l
IsHolder s a Role.admin = s.addresses DataKey.admin ≡ some a
IsHolder s a Role.emergency_admin = s.addresses DataKey.emergency_admin ≡ some a
IsHolder s a Role.rewards_admin = s.addresses DataKey.operator ≡ some a
IsHolder s a Role.operations_admin = s.addresses DataKey.operations_admin ≡ some a
IsHolder s a Role.pause_admin = s.addresses DataKey.pause_admin ≡ some a
IsHolder s a Role.system_fee_admin = s.addresses DataKey.system_fee_admin ≡ some a

abbrev pub HoldsAny : Access → Address → List Role → Type 0
HoldsAny s a [] = ⊥
HoldsAny s a (role ∷ roles) = IsHolder s a role ⊎ HoldsAny s a roles

contains→Listed : (a : Address) (l : List Address) → contains l a ≡ true → Listed a l
contains→Listed a [] h = cc
contains→Listed a (x ∷ l) h = elim (Bool-cases (a == x)) [
  | inl e ↦ inl ((==_iff a x).0 e)
  | inr ne ↦ inr (contains→Listed a l (ground arith))
]

Listed→contains : (a : Address) (l : List Address) → Listed a l → contains l a ≡ true
Listed→contains a [] h = absurd h
Listed→contains a (x ∷ l) (inl e) = ground arith
Listed→contains a (x ∷ l) (inr h) = ground (arith, Listed→contains a l h)

address_has_role-IsHolder :
    (s : Access) (a : Address) (role : Role)
    → address_has_role s a role ≡ ok true
    → IsHolder s a role
unfolding address_has_role
address_has_role-IsHolder s a Role.emergency_pause_admin h =
    elim (Option-cases (s.address_lists DataKey.em_pause_admins)) [
      | inl e ↦ absurd (ground arith)
      | inr (l, e) ↦ (l, e, contains→Listed a l (ground arith))
    ]
address_has_role-IsHolder s a Role.admin h = ground arith
address_has_role-IsHolder s a _ h = ground arith

IsHolder-address_has_role :
    (s : Access) (a : Address) (role : Role)
    → IsHolder s a role
    → address_has_role s a role ≡ ok true
unfolding address_has_role
IsHolder-address_has_role s a Role.emergency_pause_admin (l, e, h) =
    ground (arith, Listed→contains a l h)
IsHolder-address_has_role s a Role.admin h = ground arith
IsHolder-address_has_role s a _ h = ground arith

address_has_role_total :
    (s : Access) (a : Address) (role : Role)
    → (address_has_role s a role ≡ ok true) ⊎ (address_has_role s a role ≡ ok false)
unfolding address_has_role
address_has_role_total s a Role.admin = ground arith
address_has_role_total s a _ = ground arith

-- A guard lets an address through exactly when it holds one of the guard's roles, and stops every
-- other address with `Unauthorized`; it never traps.
pub require_any_iff :
    (s : Access) (a : Address) (roles : List Role)
    → ((require_any s a roles ≡ ok tt) ↔ HoldsAny s a roles)
      × ((HoldsAny s a roles → ⊥)
          → require_any s a roles ≡ err (access AccessControlError.unauthorized))
unfolding require_any
require_any_iff s a [] = ((λ h. cc, λ h. absurd h), λ h. ground arith)
require_any_iff s a (role ∷ roles) =
    let ih = require_any_iff s a roles in
    elim (address_has_role_total s a role) [
      | inl has ↦ rw has (
        (λ h. inl (address_has_role-IsHolder s a role has), λ h. refl),
        λ none_held. absurd (none_held (inl (address_has_role-IsHolder s a role has))),
      )
      | inr lacks ↦ rw lacks (
        (
          λ h. inr (ih.0.0 h),
          λ h. elim h [
            | inl held ↦ absurd (cc (IsHolder-address_has_role s a role held))
            | inr rest ↦ ih.0.1 rest
          ],
        ),
        λ none_held. ih.1 (λ r. none_held (inr r)),
      )
    ]

-- Pausing is open to the emergency pause admins, resuming is not: an address passes the guard of
-- the `kill` entry points exactly when it passes that of the `unkill` entry points or is an
-- emergency pause admin.
pub pause-iff-unpause :
    (s : Access) (a : Address)
    → (require_pause_or_emergency_pause_admin_or_owner s a ≡ ok tt)
      ↔ ((require_pause_admin_or_owner s a ≡ ok tt) ⊎ IsHolder s a Role.emergency_pause_admin)
unfolding require_pause_or_emergency_pause_admin_or_owner require_pause_admin_or_owner
pause-iff-unpause s a =
    let wide =
      require_any_iff s a (Role.pause_admin ∷ Role.emergency_pause_admin ∷ Role.admin ∷ []) in
    let narrow = require_any_iff s a (Role.pause_admin ∷ Role.admin ∷ []) in
    (λ h. widen (narrow.0.1) (wide.0.0 h), λ h. wide.0.1 (shrink narrow.0.0 h))
  where
    widen :
        (HoldsAny s a (Role.pause_admin ∷ Role.admin ∷ [])
          → require_any s a (Role.pause_admin ∷ Role.admin ∷ []) ≡ ok tt)
        → HoldsAny s a (Role.pause_admin ∷ Role.emergency_pause_admin ∷ Role.admin ∷ [])
        → (require_any s a (Role.pause_admin ∷ Role.admin ∷ []) ≡ ok tt)
          ⊎ IsHolder s a Role.emergency_pause_admin
    widen back (inl pause) = inl (back (inl pause))
    widen back (inr (inl em)) = inr em
    widen back (inr (inr rest)) = inl (back (inr rest))

    shrink :
        (require_any s a (Role.pause_admin ∷ Role.admin ∷ []) ≡ ok tt
          → HoldsAny s a (Role.pause_admin ∷ Role.admin ∷ []))
        → (require_any s a (Role.pause_admin ∷ Role.admin ∷ []) ≡ ok tt)
          ⊎ IsHolder s a Role.emergency_pause_admin
        → HoldsAny s a (Role.pause_admin ∷ Role.emergency_pause_admin ∷ Role.admin ∷ [])
    shrink forth (inr em) = inr (inl em)
    shrink forth (inl narrow) = elim (forth narrow) [
      | inl pause ↦ inl pause
      | inr rest ↦ inr (inr rest)
    ]
