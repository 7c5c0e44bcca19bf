-- ===== src/Pool/Inversion.antt =====
-- The parts of a deposit and of a withdrawal that succeeded.
use soroban_amm.Prelude.{ℕ, ◌+◌, ◌-◌, ◌≤◌, ◌≡◌, List, arith}
use soroban_amm.Host.{Address, Env, Math, ok, fit, sub_checked}
use soroban_amm.Host.Integer.{as_i128, as_u128}
use soroban_amm.Pool.Formulas.{get_deposit_amounts}
use soroban_amm.Pool.State.{
  Pool, Outside, two, sync_reserves, mint_shares, burn_shares, get_user_balance_shares,
}
use soroban_amm.Pool.Liquidity.{
  new_total_shares, value_of, checkpoint_before, checkpoint_after, conclude, give_back, credit,
  deposit, redeem, withdraw,
}

module _ ⦃m : Math⦄ {S : Type 0} (o : Outside S) where
  pub conclude-eq-ok :
      (p p' : Pool) (s s' : S) (user : Address) (du dt total held : ℕ)
      → conclude o p user du dt total held s ≡ ok (p', s')
      → (s₁ : S) × (checkpoint_after o user du dt total held s ≡ ok s₁)
        × (o.update_plane p s₁ ≡ ok s')
        × (p ≡ p')
  unfolding conclude
  conclude-eq-ok p p' s s' user du dt total held h = ground arith

  pub credit-eq-ok :
      (p : Pool) (s : S) (user : Address) (user_shares least a b shares : ℕ) (done : Pool × S)
      → credit o p user user_shares least a b s ≡ ok (shares, done)
      → (total : ℕ) × (new_total_shares p.reserve_a p.reserve_b a b p.total_shares ≡ ok total)
        × (minted : ℕ) × (sub_checked total p.total_shares ≡ ok minted)
        × (s₁ : S) × (o.mint p.token_share user (as_i128 minted) s ≡ ok s₁)
        × (held : ℕ) × (fit 128 (user_shares + minted) ≡ ok held)
        × (conclude o
              (record p {
                total_shares = p.total_shares + as_u128 (as_i128 minted);
                reserve_a = a;
                reserve_b = b;
              })
              user
              0
              0
              total
              held
              s₁
            ≡ ok done)
        × (p.total_shares ≤ total)
        × (least ≤ minted)
        × (shares ≡ total - p.total_shares)
  unfolding credit mint_shares
  credit-eq-ok p s user user_shares least a b shares done h = ground arith

  pub deposit-eq-ok :
      (e : Env) (p₀ p' : Pool) (s s' : S) (user : Address) (l : List ℕ) (least shares : ℕ)
      (amounts : ℕ × ℕ)
      → deposit o e (p₀, s) user l least ≡ ok (amounts, shares, (p', s'))
      → (desired : ℕ × ℕ) × (two l ≡ ok desired)
        × (p : Pool) × (sync_reserves o e p₀ s ≡ ok p)
        × (s₁ : S) × (checkpoint_before o user p.total_shares (get_user_balance_shares o p user s) s
            ≡ ok s₁)
        × (s₂ : S) × (o.transfer p.token_a user e.current_contract (as_i128 desired.0) s₁ ≡ ok s₂)
        × (s₃ : S) × (o.transfer p.token_b user e.current_contract (as_i128 desired.1) s₂ ≡ ok s₃)
        × (taken : ℕ × ℕ) × (get_deposit_amounts desired.0 0 desired.1 0 p.reserve_a p.reserve_b
            ≡ ok taken)
        × (s₄ : S) × (give_back o e p.token_a user desired.0 taken.0 s₃ ≡ ok s₄)
        × (s₅ : S) × (give_back o e p.token_b user desired.1 taken.1 s₄ ≡ ok s₅)
        × (credit o p user
              (get_user_balance_shares o p user s)
              least
              (p.reserve_a + taken.0)
              (p.reserve_b + taken.1)
              s₅
            ≡ ok (shares, (p', s')))
        × (taken.0 ≡ amounts.0)
        × (taken.1 ≡ amounts.1)
  unfolding deposit
  deposit-eq-ok e p₀ p' s s' user l least shares amounts h = ground arith

  pub redeem-eq-ok :
      (p burned : Pool) (s : S) (user : Address) (user_shares n out_a out_b : ℕ) (done : Pool × S)
      → redeem o p burned user user_shares n out_a out_b s ≡ ok done
      → (conclude o
            (record burned { reserve_a = p.reserve_a - out_a; reserve_b = p.reserve_b - out_b })
            user
            (user_shares - n)
            (p.total_shares - n)
            (p.total_shares - n)
            (user_shares - n)
            s
          ≡ ok done)
        × (out_a ≤ p.reserve_a)
        × (out_b ≤ p.reserve_b)
  unfolding redeem
  redeem-eq-ok p burned s user user_shares n out_a out_b done h = ground arith

  pub withdraw-eq-ok :
      (e : Env) (p₀ : Pool) (s : S) (user : Address) (n : ℕ) (l : List ℕ) (out : ℕ × ℕ)
      (done : Pool × S)
      → withdraw o e (p₀, s) user n l ≡ ok (out, done)
      → (least : ℕ × ℕ) × (two l ≡ ok least)
        × (p : Pool) × (sync_reserves o e p₀ s ≡ ok p)
        × (s₁ : S) × (checkpoint_before o user p.total_shares (get_user_balance_shares o p user s) s
            ≡ ok s₁)
        × (s₂ : S) × (o.burn p.token_share user (as_i128 n) s₁ ≡ ok s₂)
        × (paid : ℕ × ℕ) × (value_of p n ≡ ok paid)
        × (s₃ : S) × (o.transfer p.token_a e.current_contract user (as_i128 paid.0) s₂ ≡ ok s₃)
        × (s₄ : S) × (o.transfer p.token_b e.current_contract user (as_i128 paid.1) s₃ ≡ ok s₄)
        × (redeem o p
              (record p { total_shares = p.total_shares - n })
              user
              (get_user_balance_shares o p user s)
              n
              paid.0
              paid.1
              s₄
            ≡ ok done)
        × (least.0 ≤ paid.0)
        × (least.1 ≤ paid.1)
        × (n ≤ p.total_shares)
        × (paid.0 ≡ out.0)
        × (paid.1 ≡ out.1)
  unfolding withdraw burn_shares
  withdraw-eq-ok e p₀ s user n l out done h = ground arith
