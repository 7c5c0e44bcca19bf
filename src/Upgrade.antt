-- ===== src/Upgrade.antt =====
-- upgrade/src: new code is committed, and applied three days later or in emergency mode.
pub mod Delay
pub mod Handlers
mod Tests
use soroban_amm.Prelude.{ℕ, ◌+◌, ◌*◌, Bool, not, ◌&&◌, Option, some, ◌==◌, ltb}
use soroban_amm.Host.{
  Env, Result, ok, ◌>>=◌, ◌>>◌, panic_if, or_panic, upgrade, storage, value_not_initialized,
  UpgradeError, fit,
}
use soroban_amm.Access.Store.{Access, get_emergency_mode, unwrap_or}

abbrev pub upgrade_delay : ℕ
upgrade_delay = 3 * 86400

-- A `BytesN<32>`: hashes are only stored and handed to the host.
abbrev pub Hash : Type 0
Hash = ℕ

-- The crate's part of the instance storage, and the code that the contract runs
-- (`update_current_contract_wasm` writes it).
pub record Code : Type 0 where
  pub upgrade_deadline : Option ℕ
  pub future_wasm : Option Hash
  pub wasm : Hash

abbrev pub get_upgrade_deadline : Code → ℕ
get_upgrade_deadline c = unwrap_or c.upgrade_deadline 0

abbrev pub put_upgrade_deadline : Code → ℕ → Code
put_upgrade_deadline c value = record c { upgrade_deadline = some value }

abbrev pub put_future_wasm : Code → Hash → Code
put_future_wasm c value = record c { future_wasm = some value }

unfoldable pub commit_upgrade : Env → Code → Hash → Result Code
commit_upgrade e c new_wasm_hash = do
  panic_if (not (get_upgrade_deadline c == 0)) (upgrade UpgradeError.another_action_active)
  deadline ← fit 64 (e.timestamp + upgrade_delay)
  ok (put_future_wasm (put_upgrade_deadline c deadline) new_wasm_hash)

-- The deadline is not read in emergency mode.
is_early : Env → Access → Code → Bool
is_early e s c = not (get_emergency_mode s) && ltb e.timestamp (get_upgrade_deadline c)

unfoldable pub apply_upgrade : Env → Access → Code → Result (Hash × Code)
unfolding is_early
apply_upgrade e s c = do
  panic_if (is_early e s c) (upgrade UpgradeError.action_not_ready_yet)
  panic_if (get_upgrade_deadline c == 0) (upgrade UpgradeError.no_action_active)
  let c₁ = put_upgrade_deadline c 0
  new_wasm_hash ← or_panic c₁.future_wasm (storage value_not_initialized)
  ok (new_wasm_hash, record c₁ { wasm = new_wasm_hash })

abbrev pub revert_upgrade : Code → Code
revert_upgrade c = put_upgrade_deadline c 0
