-- ===== src/Stableswap/Imbalance.antt =====
-- liquidity_pool_stableswap/src/contract.rs: withdrawals of given amounts, and their price.
use soroban_amm.Prelude.{
  ℕ, ◌+◌, ◌-◌, Bool, true, false, not, List, [], ◌∷◌, length, ltb, ◌==◌, if◌then◌else◌,
}
use soroban_amm.Host.{
  Address, Env, Math, Result, ok, err, ◌>>=◌, ◌>>◌, panic_if, require_auth, host, trap, validation,
  stableswap, StableswapError, wrong_input_vec_size, empty_pool, zero_shares_burned,
  too_many_shares_burned, zero_token_not_allowed, fit, sub_checked,
}
use soroban_amm.Host.Integer.{as_i128}
use soroban_amm.Pool.State.{Outside}
use soroban_amm.Pool.Liquidity.{checkpoint_before}
use soroban_amm.Stableswap.State.{Stable, fee_denominator}
use soroban_amm.Stableswap.Ramp.{a}
use soroban_amm.Stableswap.Reserves.{sync_reserves}
use soroban_amm.Stableswap.Withdraw.{burn_shares, conclude}
use soroban_amm.Stableswap.Deposit.{d_at, imbalance_fee, mint_shares}

module _ ⦃m : Math⦄ where
  -- The first loop of `remove_liquidity_imbalance`: no balance may fall to 0.
  unfoldable pub lower_all : List ℕ → List ℕ → Result (List ℕ)
  lower_all [] olds = ok olds
  lower_all (amount ∷ amounts) [] = err (host trap)
  lower_all (amount ∷ amounts) (old ∷ olds) = do
    new ← sub_checked old amount
    panic_if (new == 0) (stableswap zero_token_not_allowed)
    rest ← lower_all amounts olds
    ok (new ∷ rest)

  -- The second loop: the reserves, the balances that the shares are computed from, and the
  -- protocol's fees.
  unfoldable pub withdraw_fees :
      Stable → ℕ → ℕ → ℕ → List ℕ → List ℕ → List ℕ → Result (List ℕ × List ℕ × List ℕ)
  withdraw_fees p n_coins d1 d0 [] news fees = ok ([], [], fees)
  withdraw_fees p n_coins d1 d0 (old ∷ olds) (new ∷ news) (fee ∷ fees) = do
    wide ← m.fixed_mul_floor_u256 d1 old d0
    ideal ← fit 128 wide
    charged ← imbalance_fee p n_coins ideal new
    protocol_fee ← m.fixed_mul_ceil charged p.protocol_fee_fraction fee_denominator
    fee' ← fit 128 (fee + protocol_fee)
    reserve ← sub_checked new protocol_fee
    counted ← sub_checked new charged
    panic_if (counted == 0) (stableswap zero_token_not_allowed)
    rest ← withdraw_fees p n_coins d1 d0 olds news fees
    ok (reserve ∷ rest.0, counted ∷ rest.1, fee' ∷ rest.2)
  withdraw_fees p n_coins d1 d0 _ _ _ = err (host trap)

  -- The reserves, the protocol's fees, and the shares to burn, one more for rounding errors.
  unfoldable pub price_withdrawal : Stable → ℕ → List ℕ → Result (List ℕ × List ℕ × ℕ)
  price_withdrawal p amp amounts = do
    d0 ← d_at p amp p.reserves
    new_balances ← lower_all amounts p.reserves
    d1 ← d_at p amp new_balances
    charged ← withdraw_fees p (length p.tokens) d1 d0 p.reserves new_balances p.protocol_fees
    d2 ← d_at p amp charged.1
    fallen ← m.sub d0 d2
    wide ← m.fixed_mul_floor_u256 fallen p.total_shares d0
    share_amount ← fit 128 wide
    panic_if (share_amount == 0) (validation zero_shares_burned)
    more ← fit 128 (share_amount + 1)
    ok (charged.0, charged.2, more)

  -- The loop of `calc_token_amount`.
  unfoldable pub shift_all : Bool → List ℕ → List ℕ → Result (List ℕ)
  shift_all deposit [] reserves = ok reserves
  shift_all deposit (amount ∷ amounts) [] = err (host trap)
  shift_all deposit (amount ∷ amounts) (reserve ∷ reserves) = do
    let grown = fit 128 (reserve + amount)
    let lowered = sub_checked reserve amount
    new ← if deposit then grown else lowered
    rest ← shift_all deposit amounts reserves
    ok (new ∷ rest)

  module _ {S : Type 0} (o : Outside S) (update_plane : Stable → S → Result S) where
    -- The loop of the transfers to the user.
    unfoldable pub pay_amounts : Env → Address → List Address → List ℕ → S → Result S
    pay_amounts e user [] amounts s = ok s
    pay_amounts e user (coin ∷ coins) [] s = err (host trap)
    pay_amounts e user (coin ∷ coins) (amount ∷ amounts) s = do
      let call = o.transfer coin e.current_contract user (as_i128 amount) s
      s₁ ← if amount == 0 then ok s else call
      pay_amounts e user coins amounts s₁

    -- The most that the user allows is burned, and the rest is minted back.
    unfoldable pub burn_exactly : Stable → Address → ℕ → ℕ → S → Result (Stable × S)
    burn_exactly p user max_burn_amount share_amount s = do
      burned ← burn_shares o update_plane p user max_burn_amount s
      elim (ltb share_amount max_burn_amount) [
        | true ↦
            mint_shares o update_plane burned.0 user (as_i128 (max_burn_amount - share_amount))
              burned.1
        | false ↦ ok burned
      ]

    unfoldable pub remove_liquidity_imbalance :
        Env → Stable × S → Address → List ℕ → ℕ → Result (ℕ × (Stable × S))
    remove_liquidity_imbalance e (p₀, s) user amounts max_burn_amount = do
      require_auth e user
      panic_if p₀.is_killed_swap (stableswap StableswapError.pool_swap_killed)
      panic_if (not (length amounts == length p₀.tokens)) (validation wrong_input_vec_size)
      p ← sync_reserves o e p₀ s
      let user_shares = o.balance p.token_share user s
      s₁ ← checkpoint_before o user p.total_shares user_shares s
      panic_if (p.total_shares == 0) (validation empty_pool)
      amp ← a e p
      priced ← price_withdrawal p amp amounts
      let share_amount = priced.2
      panic_if (ltb max_burn_amount share_amount) (validation too_many_shares_burned)
      let booked = record p { reserves = priced.0; protocol_fees = priced.1 }
      burned ← burn_exactly booked user max_burn_amount share_amount s₁
      s₂ ← pay_amounts e user p.tokens amounts burned.1
      done ← conclude o update_plane burned.0 user p.total_shares user_shares share_amount s₂
      ok (share_amount, done)

    unfoldable pub calc_token_amount : Env → Stable × S → List ℕ → Bool → Result (ℕ × Stable)
    calc_token_amount e (p₀, s) amounts deposit = do
      panic_if (not (length amounts == length p₀.tokens)) (validation wrong_input_vec_size)
      p ← sync_reserves o e p₀ s
      amp ← a e p
      d0 ← d_at p amp p.reserves
      reserves ← shift_all deposit amounts p.reserves
      d1 ← d_at p amp reserves
      let up = m.sub d1 d0
      let down = m.sub d0 d1
      diff ← if deposit then up else down
      wide ← m.fixed_mul_floor_u256 diff p.total_shares d0
      shares ← fit 128 wide
      ok (shares, p)
