-- ===== src/Gauge/State.antt =====
-- The gauge's storage, its checkpoints (gauge.rs) and its entry points (contract.rs).
use soroban_amm.Prelude.{
  ℕ, ◌+◌, ◌-◌, ◌*◌, ◌||◌, true, false, not, Option, List, [], ◌∷◌, ltb, ◌==◌, ◌++◌, if◌then◌else◌,
  min, length,
}
use soroban_amm.Prelude.Dict.{Dict, lookup, insert}
use soroban_amm.Host.{
  Address, Env, Math, Result, ok, ◌>>=◌, ◌>>◌, panic_if, require_auth, gauge, GaugeError,
  invalid_config, start_too_early, too_many_configs, invalid_reward_state, fit, sub_checked,
}
use soroban_amm.Host.Integer.{ℤ, as_i128}
use soroban_amm.Access.Store.{unwrap_or}

abbrev pub reward_precision : ℕ
reward_precision = 10000000000000000000000

abbrev pub max_reward_configs : ℕ
max_reward_configs = 10

pub record RewardConfig : Type 0 where
  pub start_at : ℕ
  pub tps : ℕ
  pub expired_at : ℕ

pub record GlobalRewardData : Type 0 where
  pub epoch : ℕ
  pub inv : ℕ
  pub accumulated : ℕ
  pub claimed : ℕ

pub record UserRewardData : Type 0 where
  pub epoch : ℕ
  pub last_inv : ℕ
  pub to_claim : ℕ

-- `DataKey`, with the defaults that the getters give to missing entries.
pub record Gauge : Type 0 where
  pub pool : Address
  pub reward_token : Address
  pub configs : List RewardConfig
  pub global : GlobalRewardData
  pub users : Dict UserRewardData

module _ ⦃m : Math⦄ where
  -- What an active or finished config adds, and the time it has run since the last checkpoint.
  unfoldable pub accrue : Env → ℕ → ℕ → RewardConfig → GlobalRewardData → Result GlobalRewardData
  accrue e start_epoch working_supply c g = do
    let reward_start = if ltb c.start_at start_epoch then start_epoch else c.start_at
    let reward_end = if ltb e.timestamp c.expired_at then e.timestamp else c.expired_at
    elapsed ← sub_checked reward_end reward_start
    generated_tokens ← fit 128 (elapsed * c.tps)
    reward_per_share ← elim (ltb 0 working_supply) [
      | true ↦ m.fixed_mul_floor generated_tokens reward_precision working_supply
      | false ↦ ok 0
    ]
    inv ← m.add g.inv reward_per_share
    accumulated ← fit 128 (g.accumulated + generated_tokens)
    ok (record g { inv = inv; accumulated = accumulated })

  -- The loop over the configs: a config is kept until it expires.
  unfoldable pub accrue_all :
      Env
      → ℕ
      → ℕ
      → List RewardConfig
      → GlobalRewardData
      → Result (List RewardConfig × GlobalRewardData)
  unfolding accrue
  accrue_all e start_epoch working_supply [] g = ok ([], g)
  accrue_all e start_epoch working_supply (c ∷ cs) g = elim (ltb e.timestamp c.start_at) [
    | true ↦ do rest ← accrue_all e start_epoch working_supply cs g; ok (c ∷ rest.0, rest.1)
    | false ↦ do
      g₁ ← accrue e start_epoch working_supply c g
      rest ← accrue_all e start_epoch working_supply cs g₁
      ok (if ltb e.timestamp c.expired_at then c ∷ rest.0 else rest.0, rest.1)
  ]

  unfoldable pub checkpoint_global : Env → Gauge → ℕ → Result Gauge
  unfolding accrue_all
  checkpoint_global e g working_supply = do
    let start = g.global
    done ← accrue_all e start.epoch working_supply g.configs (record start { epoch = e.timestamp })
    ok (record g { configs = done.0; global = done.1 })

  -- The user's data after the checkpoint, and the gauge that stores it.
  unfoldable pub checkpoint_user : Gauge → Address → ℕ → Result (UserRewardData × Gauge)
  checkpoint_user g user working_balance =
      let fresh : UserRewardData = record { epoch = 0; last_inv = 0; to_claim = 0 } in
      let user_data = unwrap_or (lookup user g.users) fresh in
      let global = g.global in
      elim (user_data.epoch == global.epoch) [
        | true ↦ ok (user_data, g)
        | false ↦ elim (working_balance == 0) [
          | true ↦
              let new : UserRewardData = record {
                epoch = global.epoch;
                last_inv = global.inv;
                to_claim = user_data.to_claim;
              } in
              ok (new, record g { users = insert user new g.users })
          | false ↦ do
            grown ← m.sub global.inv user_data.last_inv
            product ← m.mul working_balance grown
            quotient ← m.div product reward_precision
            reward ← fit 128 quotient
            to_claim ← fit 128 (user_data.to_claim + reward)
            let new : UserRewardData = record {
              epoch = global.epoch;
              last_inv = global.inv;
              to_claim = to_claim;
            }
            ok (new, record g { users = insert user new g.users })
        ]
      ]

  -- `pool.require_auth()`, and the pool must be the gauge's.
  unfoldable pub only_pool : Env → Gauge → Address → Result (Unit {0})
  only_pool e g pool = do
    require_auth e pool
    panic_if (not (g.pool == pool)) (gauge GaugeError.unauthorized)

  unfoldable pub checkpoint_user_call : Env → Gauge → Address → Address → ℕ → ℕ → Result Gauge
  unfolding only_pool checkpoint_global checkpoint_user
  checkpoint_user_call e g pool user working_balance working_supply = do
    only_pool e g pool
    g₁ ← checkpoint_global e g working_supply
    done ← checkpoint_user g₁ user working_balance
    ok done.1

  -- What the user can claim, and the gauge after both checkpoints.
  unfoldable pub get_user_reward : Env → Gauge → Address → Address → ℕ → ℕ → Result (ℕ × Gauge)
  unfolding only_pool checkpoint_global checkpoint_user
  get_user_reward e g pool user working_balance working_supply = do
    only_pool e g pool
    g₁ ← checkpoint_global e g working_supply
    done ← checkpoint_user g₁ user working_balance
    ok (done.0.to_claim, done.1)

  unfoldable pub set_reward_state :
      Env → Gauge → Address → GlobalRewardData → List RewardConfig → Result Gauge
  unfolding only_pool
  set_reward_state e g pool global_data configs = do
    only_pool e g pool
    panic_if (ltb global_data.accumulated global_data.claimed) (gauge invalid_reward_state)
    panic_if (ltb global_data.inv g.global.inv) (gauge invalid_reward_state)
    ok (record g { global = global_data; configs = configs })

  -- `transfer` is the call of a token: token, from, to, amount.
  module _ {S : Type 0} (transfer : Address → Address → Address → ℤ → S → Result S) where
    unfoldable pub schedule_rewards_config :
        Env → Gauge × S → Address → Address → Option ℕ → ℕ → ℕ → ℕ → Result (Gauge × S)
    unfolding checkpoint_global
    schedule_rewards_config e (g, s) pool distributor start_at duration tps working_supply = do
      require_auth e pool
      require_auth e distributor
      panic_if (not (g.pool == pool)) (gauge GaugeError.unauthorized)
      panic_if (duration == 0 || tps == 0) (gauge invalid_config)
      new_reward ← fit 128 (tps * duration)
      s₁ ← transfer g.reward_token distributor e.current_contract (as_i128 new_reward) s
      g₁ ← checkpoint_global e g working_supply
      let config_start_at = unwrap_or start_at e.timestamp
      panic_if (ltb config_start_at e.timestamp) (gauge start_too_early)
      expired_at ← fit 64 (config_start_at + duration)
      let new : RewardConfig = record {
        start_at = config_start_at;
        tps = tps;
        expired_at = expired_at;
      }
      let configs = g₁.configs ++ new ∷ []
      panic_if (ltb max_reward_configs (length configs)) (gauge too_many_configs)
      ok (record g₁ { configs = configs }, s₁)

    -- The end of a claim: what is owed, but no more than was generated and not yet claimed.
    unfoldable pub pay_claim : Env → Gauge → Address → UserRewardData → S → Result (ℕ × (Gauge × S))
    pay_claim e g user user_data s = do
      let transfer_amount = min user_data.to_claim (g.global.accumulated - g.global.claimed)
      claimed ← fit 128 (g.global.claimed + transfer_amount)
      let users = insert user (record user_data { to_claim = 0 }) g.users
      let paid = record g { global = record g.global { claimed = claimed }; users = users }
      s₁ ← transfer g.reward_token e.current_contract user (as_i128 transfer_amount) s
      ok (transfer_amount, (paid, s₁))

    unfoldable pub claim : Env → Gauge × S → Address → Address → ℕ → ℕ → Result (ℕ × (Gauge × S))
    unfolding only_pool checkpoint_global checkpoint_user
    claim e (g, s) pool user working_balance working_supply = do
      only_pool e g pool
      g₁ ← checkpoint_global e g working_supply
      done ← checkpoint_user g₁ user working_balance
      pay_claim e done.1 user done.0 s
