-- ===== src/Access/Symbols.antt =====
-- The names of the roles.
use text.Mathlib.TextEquality.{eq_iff}
use soroban_amm.Prelude.{◌≡◌, refl, ◌↔◌, arith}
use soroban_amm.Host.{ok}
use soroban_amm.Access.Roles.{Role, Symbol, as_symbol, from_symbol}

from_symbol-as_symbol : (role : Role) → from_symbol (as_symbol role) ≡ ok role
unfolding from_symbol as_symbol
from_symbol-as_symbol Role.admin = refl
from_symbol-as_symbol _ = refl

as_symbol-from_symbol :
    (value : Symbol) (role : Role) → from_symbol value ≡ ok role → as_symbol role ≡ value
unfolding from_symbol as_symbol
as_symbol-from_symbol value role h = ground (
  arith,
  eq_iff value "Admin",
  eq_iff value "EmergencyAdmin",
  eq_iff value "RewardsAdmin",
  eq_iff value "OperationsAdmin",
  eq_iff value "PauseAdmin",
  eq_iff value "EmergencyPauseAdmin",
  eq_iff value "SystemFeeAdmin",
)

-- A symbol is read as a role exactly when it is that role's own name: no two roles share a name
-- and no other text names a role.
pub from_symbol_iff :
    (value : Symbol) (role : Role) → (from_symbol value ≡ ok role) ↔ (as_symbol role ≡ value)
from_symbol_iff value role =
    (as_symbol-from_symbol value role, λ e. rw (← e) (from_symbol-as_symbol role))
