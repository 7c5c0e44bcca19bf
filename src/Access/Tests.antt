-- ===== src/Access/Tests.antt =====
-- A transfer of ownership on concrete states, and the theorems at it.
use soroban_amm.Prelude.{ℕ, ◌≡◌, refl, true, some, none, [], ◌∷◌, arith}
use soroban_amm.Host.{Env, ok}
use soroban_amm.Access.Roles.{Role, DataKey, get_key}
use soroban_amm.Access.Store.{Access, set_at}
use soroban_amm.Access.Transfer.{
  commit_transfer_ownership, apply_transfer_ownership, get_transfer_ownership_deadline,
}
use soroban_amm.Access.Lifecycle.{IsDelayed, commit-apply}
use soroban_amm.Access.Delay.{here, next, commit, wait, owner, Reach-holder}

abbrev store : Access
store = record {
  addresses = λ k. elim k [ DataKey.admin ↦ some 7 | DataKey.pause_admin ↦ some 4 | _ ↦ none ];
  address_lists = λ k. elim k [ DataKey.em_pause_admins ↦ some (5 ∷ 6 ∷ []) | _ ↦ none ];
  times = λ k. none;
  emergency_mode = none;
}

abbrev at_time : ℕ → Env
at_time t = record { timestamp = t; sequence = 50; current_contract = 9; authorized = λ a. true }

abbrev committed : Access
committed = record store {
  times = set_at store.times DataKey.transfer_ownership_deadline 260200;
  addresses = set_at store.addresses DataKey.future_admin 8;
}

commit_runs : commit_transfer_ownership (at_time 1000) store Role.admin 8 ≡ ok committed
unfolding commit_transfer_ownership
commit_runs = refl

commit-apply_example :
    IsDelayed 1000 300000 Role.admin 8
      (apply_transfer_ownership (at_time 300000) committed Role.admin)
unfolding get_key
commit-apply_example =
    commit-apply (at_time 1000) (at_time 300000) store committed Role.admin 8 7 refl commit_runs

Reach-holder_example : committed.addresses (get_key Role.admin) ≡ some 7
unfolding get_transfer_ownership_deadline get_key
Reach-holder_example =
    Reach-holder owner 1000 2000 7 store committed refl refl
      (next (next here (commit (at_time 1000) Role.admin 8 commit_runs)) (wait (omega arith)))
      (omega arith)
