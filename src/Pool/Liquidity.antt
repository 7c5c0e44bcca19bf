-- ===== src/Pool/Liquidity.antt =====
-- liquidity_pool/src/contract.rs: deposits and withdrawals.
use soroban_amm.Prelude.{ℕ, ◌+◌, ◌-◌, ◌&&◌, ◌||◌, true, false, List, ltb, ◌==◌, if◌then◌else◌, min}
use soroban_amm.Host.{
  Address, Env, Math, Result, ok, ◌>>=◌, ◌>>◌, panic_if, require_auth, validation, pool,
  pool_deposit_killed, all_coins_required, out_min_not_satisfied, fit, sub_checked,
}
use soroban_amm.Host.Integer.{as_i128}
use soroban_amm.Utils.{sqrt}
use soroban_amm.Pool.Formulas.{get_deposit_amounts}
use soroban_amm.Pool.State.{
  Pool, Outside, two, sync_reserves, mint_shares, burn_shares, get_user_balance_shares,
}

module _ ⦃m : Math⦄ where
  -- The total of the shares after a deposit: in proportion to the reserves, or for an empty pool the
  -- geometric mean.
  unfoldable pub new_total_shares : ℕ → ℕ → ℕ → ℕ → ℕ → Result ℕ
  new_total_shares reserve_a reserve_b new_reserve_a new_reserve_b total_shares =
      elim (ltb 0 reserve_a && ltb 0 reserve_b) [
        | true ↦ do
          shares_a ← m.fixed_mul_floor new_reserve_a total_shares reserve_a
          shares_b ← m.fixed_mul_floor new_reserve_b total_shares reserve_b
          ok (min shares_a shares_b)
        | false ↦ do product ← m.mul new_reserve_a new_reserve_b; root ← sqrt product; fit 128 root
      ]

  -- What shares are worth: their part of each reserve, rounded down.
  unfoldable pub value_of : Pool → ℕ → Result (ℕ × ℕ)
  value_of p share_amount = do
    out_a ← m.fixed_mul_floor p.reserve_a share_amount p.total_shares
    out_b ← m.fixed_mul_floor p.reserve_b share_amount p.total_shares
    ok (out_a, out_b)

  module _ {S : Type 0} (o : Outside S) where
    -- The rewards of the user before the pool changes.
    unfoldable pub checkpoint_before : Address → ℕ → ℕ → S → Result S
    checkpoint_before user total_shares user_shares s = do
      balance ← o.get_working_balance user user_shares s
      supply ← o.get_working_supply total_shares s
      s₁ ← o.gauges_checkpoint_user user balance supply s
      o.checkpoint_user user total_shares user_shares s₁

    -- The working balance of the user after it; `default_user` and `default_total` are what the
    -- working balance and supply default to.
    unfoldable pub checkpoint_after : Address → ℕ → ℕ → ℕ → ℕ → S → Result S
    checkpoint_after user default_user default_total total_shares user_shares s = do
      balance ← o.get_working_balance user default_user s
      supply ← o.get_working_supply default_total s
      s₁ ← o.gauges_checkpoint_user user balance supply s
      o.update_working_balance user total_shares user_shares s₁

    -- What both end with: the working balance, and the plane.
    unfoldable pub conclude : Pool → Address → ℕ → ℕ → ℕ → ℕ → S → Result (Pool × S)
    conclude p user default_user default_total total_shares user_shares s = do
      s₁ ← checkpoint_after user default_user default_total total_shares user_shares s
      s₂ ← o.update_plane p s₁
      ok (p, s₂)

    -- `if amount < desired { token.transfer(pool, user, desired - amount) }`
    unfoldable pub give_back : Env → Address → Address → ℕ → ℕ → S → Result S
    give_back e token user desired amount s =
        let call = o.transfer token e.current_contract user (as_i128 (desired - amount)) s in
        if ltb amount desired then call else ok s

    -- The end of a deposit: the shares are minted for the user, who held `user_shares`.
    unfoldable pub credit : Pool → Address → ℕ → ℕ → ℕ → ℕ → S → Result (ℕ × (Pool × S))
    credit p user user_shares min_shares new_a new_b s = do
      new_total ← new_total_shares p.reserve_a p.reserve_b new_a new_b p.total_shares
      shares ← sub_checked new_total p.total_shares
      panic_if (ltb shares min_shares) (validation out_min_not_satisfied)
      minted ← mint_shares o p user (as_i128 shares) s
      let p' = record minted.0 { reserve_a = new_a; reserve_b = new_b }
      now_held ← fit 128 (user_shares + shares)
      done ← conclude p' user 0 0 new_total now_held minted.1
      ok (shares, done)

    unfoldable pub deposit :
        Env → Pool × S → Address → List ℕ → ℕ → Result ((ℕ × ℕ) × ℕ × (Pool × S))
    deposit e (p₀, s) user desired_amounts min_shares = do
      require_auth e user
      panic_if p₀.is_killed_deposit (pool pool_deposit_killed)
      desired ← two desired_amounts
      p ← sync_reserves o e p₀ s
      let user_shares = get_user_balance_shares o p user s
      s₁ ← checkpoint_before user p.total_shares user_shares s
      let (desired_a, desired_b) = desired
      panic_if ((p.reserve_a == 0 && p.reserve_b == 0) && (desired_a == 0 || desired_b == 0))
          (validation all_coins_required)
      s₂ ← o.transfer p.token_a user e.current_contract (as_i128 desired_a) s₁
      s₃ ← o.transfer p.token_b user e.current_contract (as_i128 desired_b) s₂
      amounts ← get_deposit_amounts desired_a 0 desired_b 0 p.reserve_a p.reserve_b
      new_a ← fit 128 (p.reserve_a + amounts.0)
      new_b ← fit 128 (p.reserve_b + amounts.1)
      s₄ ← give_back e p.token_a user desired_a amounts.0 s₃
      s₅ ← give_back e p.token_b user desired_b amounts.1 s₄
      done ← credit p user user_shares min_shares new_a new_b s₅
      ok (amounts, done.0, done.1)

    unfoldable pub estimate_deposit : Env → Pool × S → List ℕ → Result (ℕ × Pool)
    estimate_deposit e (p₀, s) desired_amounts = do
      desired ← two desired_amounts
      p ← sync_reserves o e p₀ s
      let (desired_a, desired_b) = desired
      panic_if ((p.reserve_a == 0 && p.reserve_b == 0) && (desired_a == 0 || desired_b == 0))
          (validation all_coins_required)
      amounts ← get_deposit_amounts desired_a 0 desired_b 0 p.reserve_a p.reserve_b
      new_a ← fit 128 (p.reserve_a + amounts.0)
      new_b ← fit 128 (p.reserve_b + amounts.1)
      new_total ← new_total_shares p.reserve_a p.reserve_b new_a new_b p.total_shares
      shares ← sub_checked new_total p.total_shares
      ok (shares, p)

    -- The end of a withdrawal from `p`, which is `burned` without the shares.
    unfoldable pub redeem : Pool → Pool → Address → ℕ → ℕ → ℕ → ℕ → S → Result (Pool × S)
    redeem p burned user user_shares share_amount out_a out_b s = do
      new_a ← sub_checked p.reserve_a out_a
      new_b ← sub_checked p.reserve_b out_b
      user_left ← sub_checked user_shares share_amount
      total_left ← sub_checked p.total_shares share_amount
      let p' = record burned { reserve_a = new_a; reserve_b = new_b }
      conclude p' user user_left total_left total_left user_left s

    unfoldable pub withdraw : Env → Pool × S → Address → ℕ → List ℕ → Result ((ℕ × ℕ) × (Pool × S))
    withdraw e (p₀, s) user share_amount min_amounts = do
      require_auth e user
      mins ← two min_amounts
      p ← sync_reserves o e p₀ s
      let user_shares = get_user_balance_shares o p user s
      s₁ ← checkpoint_before user p.total_shares user_shares s
      burned ← burn_shares o p user share_amount s₁
      out ← value_of p share_amount
      panic_if (ltb out.0 mins.0 || ltb out.1 mins.1) (validation out_min_not_satisfied)
      s₂ ← o.transfer p.token_a e.current_contract user (as_i128 out.0) burned.1
      s₃ ← o.transfer p.token_b e.current_contract user (as_i128 out.1) s₂
      done ← redeem p burned.0 user user_shares share_amount out.0 out.1 s₃
      ok (out, done)
