-- ===== src/Gauge/Covered.antt =====
-- What is claimed never exceeds what the configs generated.
use soroban_amm.Prelude.{
  ℕ, true, ◌∙◌, ◌+◌, ◌-◌, ◌≤◌, ◌≡◌, List, [], ◌∷◌, arith, sym, ltb, Bool-cases, inl, inr,
}
use soroban_amm.Host.{Address, Env, Math, Result, ok}
use soroban_amm.Host.Integer.{ℤ, as_i128}
use soroban_amm.Gauge.State.{
  RewardConfig, GlobalRewardData, UserRewardData, Gauge, accrue, accrue_all, checkpoint_global,
  checkpoint_user, only_pool, pay_claim, claim,
}

-- Nothing is claimed between the two, and nothing generated is lost.
abbrev pub Grows : GlobalRewardData → GlobalRewardData → Type 0
Grows g g' = (g'.claimed ≡ g.claimed) × (g.accumulated ≤ g'.accumulated)

module _ ⦃m : Math⦄ where
  accrue-Grows :
      (e : Env) (epoch supply : ℕ) (c : RewardConfig) (g g' : GlobalRewardData)
      → accrue e epoch supply c g ≡ ok g'
      → Grows g g'
  unfolding accrue
  accrue-Grows e epoch supply c g g' h = (ground arith, ground arith)

  accrue_all-Grows :
      (e : Env) (epoch supply : ℕ) (cs : List RewardConfig) (g : GlobalRewardData)
      {r : List RewardConfig × GlobalRewardData}
      → accrue_all e epoch supply cs g ≡ ok r
      → Grows g r.1
  unfolding accrue_all
  accrue_all-Grows e epoch supply [] g h = ground arith
  accrue_all-Grows e epoch supply (c ∷ cs) g {r = r} h =
      elim (Bool-cases (ltb e.timestamp c.start_at)) [
        | inl future ↦
            let (rest, kept, same) : (rest : List RewardConfig × GlobalRewardData) × (accrue_all e
                    epoch supply cs g
                  ≡ ok rest)
                × (rest.1 ≡ r.1) =
              ground arith in
            rw (sym same) (accrue_all-Grows e epoch supply cs g {r = rest} kept)
        | inr active ↦
            let (g₁, added, rest, kept, same) : (g₁ : GlobalRewardData) × (accrue e epoch supply c g
                  ≡ ok g₁)
                × (rest : List RewardConfig × GlobalRewardData) × (accrue_all e epoch supply cs g₁
                    ≡ ok rest)
                × (rest.1 ≡ r.1) =
              ground arith in
            let (same₁, more₁) = accrue-Grows e epoch supply c g g₁ added in
            let (same₂, more₂) = accrue_all-Grows e epoch supply cs g₁ {r = rest} kept in
            rw (sym same) (omega arith, omega arith)
      ]

  checkpoint_global-Grows :
      (e : Env) (g g' : Gauge) (supply : ℕ)
      → checkpoint_global e g supply ≡ ok g'
      → Grows g.global g'.global
  unfolding checkpoint_global
  checkpoint_global-Grows e g g' supply h =
      let start : GlobalRewardData = record g.global { epoch = e.timestamp } in
      let (done, looped, same) : (done : List RewardConfig × GlobalRewardData) × (accrue_all e
              g.global.epoch supply g.configs start
            ≡ ok done)
          × (done.1 ≡ g'.global) =
        ground arith in
      rw (sym same) (accrue_all-Grows e g.global.epoch supply g.configs start looped)

  checkpoint_user-global :
      (g : Gauge) (user : Address) (balance : ℕ) {done : UserRewardData × Gauge}
      → checkpoint_user g user balance ≡ ok done
      → (done.1.global.claimed ≡ g.global.claimed)
        × (done.1.global.accumulated ≡ g.global.accumulated)
  unfolding checkpoint_user
  checkpoint_user-global g user balance h = (ground arith, ground arith)

  checkpoint_global-token :
      (e : Env) (g g' : Gauge) (supply : ℕ)
      → checkpoint_global e g supply ≡ ok g'
      → g'.reward_token ≡ g.reward_token
  unfolding checkpoint_global
  checkpoint_global-token e g g' supply h = ground arith

  checkpoint_user-token :
      (g : Gauge) (user : Address) (balance : ℕ) {done : UserRewardData × Gauge}
      → checkpoint_user g user balance ≡ ok done
      → done.1.reward_token ≡ g.reward_token
  unfolding checkpoint_user
  checkpoint_user-token g user balance h = ground arith

  module _ {S : Type 0} (transfer : Address → Address → Address → ℤ → S → Result S) where
    pay_claim-global :
        (e : Env) (g : Gauge) (user : Address) (user_data : UserRewardData) (s : S) (paid : ℕ)
        (done : Gauge × S)
        → pay_claim transfer e g user user_data s ≡ ok (paid, done)
        → (paid ≤ g.global.accumulated - g.global.claimed)
          × (done.0.global.claimed ≡ g.global.claimed + paid)
          × (done.0.global.accumulated ≡ g.global.accumulated)
    unfolding pay_claim
    pay_claim-global e g user user_data s paid done h = (ground arith, ground arith, ground arith)

    -- What `pay_claim` pays is transferred by the gauge to the user.
    pay_claim-transfer :
        (e : Env) (g : Gauge) (user : Address) (user_data : UserRewardData) (s : S) (paid : ℕ)
        (done : Gauge × S)
        → pay_claim transfer e g user user_data s ≡ ok (paid, done)
        → transfer g.reward_token e.current_contract user (as_i128 paid) s ≡ ok done.1
    unfolding pay_claim
    pay_claim-transfer e g user user_data s paid done h = ground arith

    claim-eq-ok :
        (e : Env) (g : Gauge) (s : S) (pool user : Address) (balance supply paid : ℕ)
        (r : Gauge × S)
        → claim transfer e (g, s) pool user balance supply ≡ ok (paid, r)
        → (g₁ : Gauge) × (checkpoint_global e g supply ≡ ok g₁)
          × (done : UserRewardData × Gauge) × (checkpoint_user g₁ user balance ≡ ok done)
          × (pay_claim transfer e done.1 user done.0 s ≡ ok (paid, r))
          × (e.authorized pool ≡ true)
          × (pool ≡ g.pool)
    unfolding claim only_pool
    claim-eq-ok e g s pool user balance supply paid r h = ground arith

    -- Where no more was claimed than generated: a claim that succeeds was authorized by the gauge's
    -- own pool. One transfer of the amount it returns, as an `i128`, from the gauge to the user leads
    -- the reward token from its state before the claim to that after it. What is claimed grows by
    -- exactly that amount, what was generated does not shrink, and still no more is claimed than
    -- generated.
    pub claim-covered :
        (e : Env) (g g' : Gauge) (s s' : S) (pool user : Address) (balance supply paid : ℕ)
        → g.global.claimed ≤ g.global.accumulated
        → claim transfer e (g, s) pool user balance supply ≡ ok (paid, (g', s'))
        → (e.authorized pool ≡ true)
          × (pool ≡ g.pool)
          × (transfer g.reward_token e.current_contract user (as_i128 paid) s ≡ ok s')
          × (g'.global.claimed ≡ g.global.claimed + paid)
          × (g.global.accumulated ≤ g'.global.accumulated)
          × (g'.global.claimed ≤ g'.global.accumulated)
    claim-covered e g g' s s' pool user balance supply paid covered h =
        let (g₁, first, done, second, third, authorized, own) =
          claim-eq-ok e g s pool user balance supply paid (g', s') h in
        let (c₁, a₁) = checkpoint_global-Grows e g g₁ supply first in
        let (c₂, a₂) = checkpoint_user-global g₁ user balance second in
        let (le, c₃, a₃) = pay_claim-global e done.1 user done.0 s paid (g', s') third in
        let sent = pay_claim-transfer e done.1 user done.0 s paid (g', s') third in
        let token : done.1.reward_token ≡ g.reward_token =
          checkpoint_user-token g₁ user balance second
          ∙ checkpoint_global-token e g g₁ supply first in
        (authorized, own, (rw token at sent), omega arith, omega arith, omega arith)
