-- ===== src/Stableswap/Deposit.antt =====
-- liquidity_pool_stableswap/src/contract.rs: deposits, their estimate, and the price of a share.
use soroban_amm.Prelude.{
  ℕ, ◌+◌, ◌-◌, ◌*◌, ◌&&◌, true, false, not, List, [], ◌∷◌, length, ltb, leb, ◌==◌, if◌then◌else◌,
}
use soroban_amm.Host.{
  Address, Env, Math, Result, ok, err, ◌>>=◌, ◌>>◌, panic_if, require_auth, host, trap, validation,
  stableswap, StableswapError, wrong_input_vec_size, out_min_not_satisfied, all_coins_required, fit,
  sub_checked,
}
use soroban_amm.Host.Integer.{ℤ, as_i128, as_u128}
use soroban_amm.Pool.State.{Outside}
use soroban_amm.Pool.Liquidity.{checkpoint_before, checkpoint_after}
use soroban_amm.Stableswap.State.{Stable, fee_denominator, get_precision, xp}
use soroban_amm.Stableswap.Ramp.{a}
use soroban_amm.Stableswap.Invariant.{get_d}
use soroban_amm.Stableswap.Reserves.{sync_reserves}
use soroban_amm.Stableswap.Withdraw.{scaled_down}

module _ ⦃m : Math⦄ where
  -- The invariant at some balances.
  unfoldable pub d_at : Stable → ℕ → List ℕ → Result ℕ
  d_at p amp balances = do xs ← xp p balances; get_d (length p.tokens) xs amp

  -- The fee on the distance of a balance from the ideal one.
  unfoldable pub imbalance_fee : Stable → ℕ → ℕ → ℕ → Result ℕ
  imbalance_fee p n_coins ideal_balance new_balance = do
    let difference =
        if ltb new_balance ideal_balance
        then ideal_balance - new_balance
        else new_balance - ideal_balance
    numerator ← fit 128 (p.fee * n_coins)
    spare ← sub_checked n_coins 1
    denominator ← fit 128 (fee_denominator * 4 * spare)
    m.fixed_mul_ceil difference numerator denominator

  -- The loop of `deposit` over the fees: the reserves, the balances that the shares are computed
  -- from, and the protocol's fees.
  unfoldable pub deposit_fees :
      Stable → ℕ → ℕ → ℕ → List ℕ → List ℕ → List ℕ → Result (List ℕ × List ℕ × List ℕ)
  deposit_fees p n_coins d1 d0 [] news fees = ok ([], [], fees)
  deposit_fees p n_coins d1 d0 (old ∷ olds) (new ∷ news) (fee ∷ fees) = do
    ideal ← scaled_down old d1 d0
    charged ← imbalance_fee p n_coins ideal new
    protocol_fee ← m.fixed_mul_ceil charged p.protocol_fee_fraction fee_denominator
    fee' ← fit 128 (fee + protocol_fee)
    reserve ← sub_checked new protocol_fee
    counted ← sub_checked new charged
    rest ← deposit_fees p n_coins d1 d0 olds news fees
    ok (reserve ∷ rest.0, counted ∷ rest.1, fee' ∷ rest.2)
  deposit_fees p n_coins d1 d0 _ _ _ = err (host trap)

  -- The loop of `estimate_deposit` over the fees.
  unfoldable pub estimate_fees : Stable → ℕ → ℕ → ℕ → List ℕ → List ℕ → Result (List ℕ)
  estimate_fees p n_coins d1 d0 [] news = ok []
  estimate_fees p n_coins d1 d0 (old ∷ olds) (new ∷ news) = do
    ideal ← scaled_down old d1 d0
    charged ← imbalance_fee p n_coins ideal new
    counted ← sub_checked new charged
    rest ← estimate_fees p n_coins d1 d0 olds news
    ok (counted ∷ rest)
  estimate_fees p n_coins d1 d0 _ _ = err (host trap)

  -- The shares for a growth of the invariant from `d0` to `d2`; a first deposit gets `d1`.
  unfoldable pub shares_for : ℕ → ℕ → ℕ → ℕ → Result ℕ
  shares_for token_supply d0 d1 d2 = elim (token_supply == 0) [
    | true ↦ fit 128 d1
    | false ↦ do
      growth ← m.sub d2 d0
      product ← m.mul token_supply growth
      quotient ← m.div product d0
      fit 128 quotient
  ]

  -- The invariant before a deposit, 0 for an empty pool.
  unfoldable pub d_before : Stable → ℕ → Result ℕ
  d_before p amp = elim (p.total_shares == 0) [ true ↦ ok 0 | false ↦ d_at p amp p.reserves ]

  -- The part of a deposit between the transfers and the shares: the reserves, the protocol's fees
  -- and the shares.
  unfoldable pub price_deposit : Stable → ℕ → ℕ → List ℕ → Result (List ℕ × List ℕ × ℕ)
  price_deposit p amp d0 new_balances = do
    d1 ← d_at p amp new_balances
    panic_if (leb d1 d0) (stableswap StableswapError.invariant_does_not_hold)
    elim (p.total_shares == 0) [
      | true ↦ do
        shares ← shares_for p.total_shares d0 d1 d1
        ok (new_balances, p.protocol_fees, shares)
      | false ↦ do
        charged ← deposit_fees p (length p.tokens) d1 d0 p.reserves new_balances p.protocol_fees
        d2 ← d_at p amp charged.1
        shares ← shares_for p.total_shares d0 d1 d2
        ok (charged.0, charged.2, shares)
    ]

  -- The loop of `estimate_deposit` over the amounts.
  unfoldable pub add_all : ℕ → List ℕ → List ℕ → Result (List ℕ)
  add_all token_supply [] olds = ok olds
  add_all token_supply (amount ∷ amounts) [] = err (host trap)
  add_all token_supply (amount ∷ amounts) (old ∷ olds) = do
    panic_if (token_supply == 0 && amount == 0) (validation all_coins_required)
    new ← fit 128 (old + amount)
    rest ← add_all token_supply amounts olds
    ok (new ∷ rest)

  module _ {S : Type 0} (o : Outside S) (update_plane : Stable → S → Result S) where
    -- The loop of `deposit` over the amounts: each above 0 is taken from the user.
    unfoldable pub take_all :
        Env → Address → ℕ → List Address → List ℕ → List ℕ → S → Result (List ℕ × S)
    take_all e user token_supply [] [] olds s = ok (olds, s)
    take_all e user token_supply (coin ∷ coins) (amount ∷ amounts) (old ∷ olds) s = do
      panic_if (token_supply == 0 && amount == 0) (validation all_coins_required)
      let call = o.transfer coin user e.current_contract (as_i128 amount) s
      s₁ ← if ltb 0 amount then call else ok s
      new ← fit 128 (old + amount)
      rest ← take_all e user token_supply coins amounts olds s₁
      ok (new ∷ rest.0, rest.1)
    take_all e user token_supply _ _ _ s = err (host trap)

    -- `mint_shares` of token_share/src/lib.rs
    unfoldable pub mint_shares : Stable → Address → ℤ → S → Result (Stable × S)
    mint_shares p to amount s = do
      total ← fit 128 (p.total_shares + as_u128 amount)
      s' ← o.mint p.token_share to amount s
      ok (record p { total_shares = total }, s')

    -- The end of a deposit: the books, the shares, the user's working balance, and the plane.
    unfoldable pub credit :
        Stable → Address → ℕ → ℕ → List ℕ × List ℕ × ℕ → S → Result (ℕ × (Stable × S))
    credit p user user_shares min_shares (balances, fees, mint_amount) s = do
      panic_if (ltb mint_amount min_shares) (validation out_min_not_satisfied)
      let booked = record p { reserves = balances; protocol_fees = fees }
      minted ← mint_shares booked user (as_i128 mint_amount) s
      user_new ← fit 128 (user_shares + mint_amount)
      total_new ← fit 128 (p.total_shares + mint_amount)
      s₁ ← checkpoint_after o user user_new total_new total_new user_new minted.1
      s₂ ← update_plane minted.0 s₁
      ok (mint_amount, (minted.0, s₂))

    unfoldable pub deposit :
        Env → Stable × S → Address → List ℕ → ℕ → Result ((List ℕ × ℕ) × (Stable × S))
    deposit e (p₀, s) user amounts min_shares = do
      require_auth e user
      panic_if p₀.is_killed_deposit (stableswap StableswapError.pool_deposit_killed)
      panic_if (not (length amounts == length p₀.tokens)) (validation wrong_input_vec_size)
      p ← sync_reserves o e p₀ s
      let user_shares = o.balance p.token_share user s
      s₁ ← checkpoint_before o user p.total_shares user_shares s
      amp ← a e p
      d0 ← d_before p amp
      taken ← take_all e user p.total_shares p.tokens amounts p.reserves s₁
      priced ← price_deposit p amp d0 taken.0
      done ← credit p user user_shares min_shares priced taken.1
      ok ((amounts, done.0), done.1)

    unfoldable pub estimate_deposit : Env → Stable × S → List ℕ → Result (ℕ × Stable)
    estimate_deposit e (p₀, s) amounts = do
      panic_if (not (length amounts == length p₀.tokens)) (validation wrong_input_vec_size)
      p ← sync_reserves o e p₀ s
      amp ← a e p
      d0 ← d_before p amp
      new_balances ← add_all p.total_shares amounts p.reserves
      d1 ← d_at p amp new_balances
      panic_if (leb d1 d0) (stableswap StableswapError.invariant_does_not_hold)
      elim (p.total_shares == 0) [
        | true ↦ do shares ← shares_for p.total_shares d0 d1 d1; ok (shares, p)
        | false ↦ do
          counted ← estimate_fees p (length p.tokens) d1 d0 p.reserves new_balances
          d2 ← d_at p amp counted
          shares ← shares_for p.total_shares d0 d1 d2
          ok (shares, p)
      ]

    unfoldable pub get_virtual_price : Env → Stable × S → Result (ℕ × Stable)
    get_virtual_price e (p₀, s) = do
      p ← sync_reserves o e p₀ s
      amp ← a e p
      d ← d_at p amp p.reserves
      precision ← get_precision p.decimals
      price ← m.fixed_mul_floor_u256 d precision p.total_shares
      price' ← fit 128 price
      ok (price', p)
