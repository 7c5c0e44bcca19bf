-- ===== src/Gauge/Tests.antt =====
-- A claim on a gauge with one running config.
use soroban_amm.Prelude.{ℕ, ◌+◌, ◌≤◌, ◌≡◌, [], ◌∷◌, refl, arith, true}
use soroban_amm.Prelude.Dict.{insert}
use soroban_amm.Host.{Address, Env, Result, ok}
use soroban_amm.Host.Integer.{ℤ, pos, as_i128}
use soroban_amm.Host.Exact.{exact}
use soroban_amm.Gauge.State.{
  Gauge, accrue, accrue_all, checkpoint_global, checkpoint_user, only_pool, pay_claim, claim,
}
use soroban_amm.Gauge.Covered.{claim-covered}

-- Tokens that record their last transfer: token, from, to, amount.
abbrev Sent : Type 0
Sent = ℕ × ℕ × ℕ × ℤ

abbrev record_sent : Address → Address → Address → ℤ → Sent → Result Sent
record_sent t f g x s = ok (t, f, g, x)

abbrev none_sent : Sent
none_sent = (0, 0, 0, pos 0)

abbrev one_sent : Sent
one_sent = (3, 9, 5, pos 2500)

abbrev env : Env
env = record { timestamp = 1000; sequence = 50; current_contract = 9; authorized = λ a. true }

abbrev running : Gauge
running = record {
  pool = 2;
  reward_token = 3;
  configs = (record { start_at = 100; tps = 5; expired_at = 2000 }) ∷ [];
  global = record { epoch = 500; inv = 0; accumulated = 50; claimed = 10 };
  users = [];
}

abbrev claimed : Gauge
claimed = record running {
  global = record {
    epoch = 1000;
    inv = 2500000000000000000000000;
    accumulated = 2550;
    claimed = 2510;
  };
  users =
      insert 5 (record { epoch = 1000; last_inv = 2500000000000000000000000; to_claim = 0 })
        (insert 5 (record { epoch = 1000; last_inv = 2500000000000000000000000; to_claim = 2500 })
          []);
}

claim_runs :
    claim ⦃m = exact⦄ record_sent env (running, none_sent) 2 5 10 10
    ≡ ok (2500, (claimed, one_sent))
unfolding claim only_pool checkpoint_global accrue_all accrue checkpoint_user pay_claim as_i128
claim_runs = refl

claim-covered_example :
    (true ≡ true)
    × (2 ≡ running.pool)
    × (record_sent 3 9 5 (as_i128 2500) none_sent ≡ ok one_sent)
    × (claimed.global.claimed ≡ 10 + 2500)
    × (50 ≤ claimed.global.accumulated)
    × (claimed.global.claimed ≤ claimed.global.accumulated)
claim-covered_example =
    claim-covered ⦃m = exact⦄ record_sent env running claimed none_sent one_sent 2 5 10 10 2500
      (omega arith) claim_runs
