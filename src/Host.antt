-- ===== src/Host.antt =====
-- What every contract of the workspace shares: the error enums of the crates, failure as a value,
-- the ledger's environment, and overflow-checked machine integers (`overflow-checks = true` in
-- Cargo.toml). A panic rolls the whole invocation back, so an error carries no state.
pub mod Errors
pub mod Numbers
pub mod Integer
pub mod Exact
pub mod Inversion
pub use Errors.*
pub use Numbers.*
use soroban_amm.Prelude.{ℕ, Bool}

-- An address is a number: the contracts only compare addresses.
abbrev pub Address : Type 0
Address = ℕ

-- What `Env` tells a contract about the call: the ledger's time and number, the contract's own
-- address, and who has authorized the call.
pub record Env : Type 0 where
  pub timestamp : ℕ
  pub sequence : ℕ
  pub current_contract : Address
  pub authorized : Address → Bool

-- `address.require_auth()`.
abbrev pub require_auth : Env → Address → Result (Unit {0})
require_auth e a = guard (e.authorized a) (host auth_failed)
