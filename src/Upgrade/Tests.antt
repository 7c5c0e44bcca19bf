-- ===== src/Upgrade/Tests.antt =====
-- An upgrade on concrete states, and the theorems at it.
use soroban_amm.Prelude.{ℕ, ◌≡◌, refl, true, some, none, arith}
use soroban_amm.Host.{Env, ok}
use soroban_amm.Access.Store.{Access}
use soroban_amm.Upgrade.{Code, commit_upgrade}
use soroban_amm.Upgrade.Delay.{here, next, commit, Reach-wasm}

abbrev calm : Access
calm = record {
  addresses = λ k. none;
  address_lists = λ k. none;
  times = λ k. none;
  emergency_mode = none;
}

abbrev at_time : ℕ → Env
at_time t = record { timestamp = t; sequence = 50; current_contract = 9; authorized = λ a. true }

abbrev before : Code
before = record { upgrade_deadline = none; future_wasm = none; wasm = 1 }

abbrev committed : Code
committed = record { upgrade_deadline = some 260200; future_wasm = some 2; wasm = 1 }

commit_runs : commit_upgrade (at_time 1000) before 2 ≡ ok committed
unfolding commit_upgrade
commit_runs = refl

Reach-wasm_example : committed.wasm ≡ before.wasm
Reach-wasm_example =
    Reach-wasm 1000 1000 before committed refl (next here (commit (at_time 1000) 2 commit_runs))
      (omega arith)
