-- ===== src/Token/Tests.antt =====
-- A token with two holders, and the theorems at it.
use soroban_amm.Prelude.{ℕ, ◌+◌, ◌≡◌, refl, true, some, none, [], ◌∷◌, arith}
use soroban_amm.Host.{Env, ok}
use soroban_amm.Host.Integer.{pos, ◌+ℤ◌, ◌-ℤ◌}
use soroban_amm.Access.Roles.{DataKey}
use soroban_amm.Access.Store.{Access, get_role}
use soroban_amm.Token.State.{
  Token, PoolClient, set_allowance, check_nonnegative_amount, checkpoint_user_rewards,
  checkpoint_user_working_balance, spend_balance, receive_balance, read_balance, write_balance,
  spend_allowance,
}
use soroban_amm.Token.Contract.{transfer, transfer_from, move_balance}
use soroban_amm.Token.Calls.{invoke, transfer_call}
use soroban_amm.Token.Supply.{IsValid, total}
use soroban_amm.Token.Total.{invoke-total}
use soroban_amm.Token.Moves.{Moved, transfer-Moved}
use soroban_amm.Token.Allowance.{Spent, transfer_from-Spent}

-- A pool that counts the calls it receives.
abbrev counting : PoolClient ℕ
counting = record {
  checkpoint_reward = λ t u b p. ok (p + 1);
  checkpoint_working_balance = λ t u b p. ok (p + 1);
}

abbrev env : Env
env = record { timestamp = 1000; sequence = 50; current_contract = 9; authorized = λ a. true }

abbrev access : Access
access = record {
  addresses = λ k. elim k [ DataKey.admin ↦ some 7 | _ ↦ none ];
  address_lists = λ k. none;
  times = λ k. none;
  emergency_mode = none;
}

abbrev two_holders : Token
two_holders = record {
  access = access;
  balances = (1, pos 100) ∷ (2, pos 20) ∷ [];
  allowances = λ f sp. some (record { amount = pos 40; expiration_ledger = 60 });
  metadata = none;
  wasm = 0;
}

abbrev after_transfer : Token
after_transfer = record two_holders { balances = (1, pos 70) ∷ (2, pos 50) ∷ [] }

transfer_runs : transfer counting env (two_holders, 0) 1 2 (pos 30) ≡ ok (after_transfer, 4)
unfolding transfer check_nonnegative_amount checkpoint_user_rewards checkpoint_user_working_balance
    get_role move_balance spend_balance receive_balance read_balance write_balance ◌+ℤ◌ ◌-ℤ◌
transfer_runs = refl

two_holders-IsValid : IsValid two_holders
two_holders-IsValid = omega arith

invoke-total_example : IsValid after_transfer × (total after_transfer ≡ total two_holders +ℤ pos 0)
unfolding invoke
invoke-total_example =
    invoke-total counting env two_holders after_transfer 0 4 (transfer_call 1 2 (pos 30))
      two_holders-IsValid transfer_runs

transfer-Moved_example : (true ≡ true) × Moved two_holders 1 2 (pos 30) after_transfer
transfer-Moved_example =
    transfer-Moved counting env two_holders after_transfer 0 4 1 2 (pos 30) transfer_runs

abbrev after_spend : Token
after_spend = record after_transfer {
  allowances =
      set_allowance two_holders.allowances 1 3 (record { amount = pos 10; expiration_ledger = 60 });
}

transfer_from_runs :
    transfer_from counting env (two_holders, 0) 3 1 2 (pos 30) ≡ ok (after_spend, 4)
unfolding transfer_from spend_allowance check_nonnegative_amount checkpoint_user_rewards
    checkpoint_user_working_balance get_role move_balance spend_balance receive_balance read_balance
    write_balance ◌+ℤ◌ ◌-ℤ◌
transfer_from_runs = refl

transfer_from-Spent_example : (true ≡ true) × Spent env two_holders 1 3 (pos 30) after_spend
transfer_from-Spent_example =
    transfer_from-Spent counting env two_holders after_spend 0 4 3 1 2 (pos 30) transfer_from_runs
