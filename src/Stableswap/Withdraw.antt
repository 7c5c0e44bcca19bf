-- ===== src/Stableswap/Withdraw.antt =====
-- liquidity_pool_stableswap/src/contract.rs: withdrawals in all tokens, or in one.
pub mod Parts
use soroban_amm.Prelude.{
  ℕ, zero, suc, ◌+◌, ◌-◌, ◌*◌, true, false, not, List, [], ◌∷◌, length, ltb, ◌==◌, if◌then◌else◌,
}
use soroban_amm.Host.{
  Address, Env, Math, Result, ok, err, ◌>>=◌, ◌>>◌, panic_if, require_auth, host, trap, validation,
  stableswap, StableswapError, wrong_input_vec_size, out_min_not_satisfied, in_min_not_satisfied,
  fit, sub_checked, div_checked,
}
use soroban_amm.Host.Integer.{as_i128}
use soroban_amm.Pool.State.{Outside}
use soroban_amm.Pool.Liquidity.{checkpoint_before, checkpoint_after}
use soroban_amm.Stableswap.State.{Stable, fee_denominator, get, set, get_precision_mul, xp}
use soroban_amm.Stableswap.Ramp.{a}
use soroban_amm.Stableswap.Invariant.{get_d}
use soroban_amm.Stableswap.Solve.{get_y_d}
use soroban_amm.Stableswap.Reserves.{sync_reserves}

module _ ⦃m : Math⦄ where
  -- `U256(balance) * d1 / d0` as a `u128`.
  unfoldable pub scaled_down : ℕ → ℕ → ℕ → Result ℕ
  scaled_down balance d1 d0 = do
    product ← m.mul balance d1
    quotient ← m.div product d0
    fit 128 quotient

  -- The loop of `_calc_withdraw_one_coin`: each balance less the fee on its distance from the ideal
  -- one. `j` is the index of the first balance left.
  unfoldable pub charge_all : Stable → ℕ → ℕ → ℕ → ℕ → ℕ → ℕ → List ℕ → Result (List ℕ)
  charge_all p n_coins token_idx new_y d1 d0 j [] = ok []
  charge_all p n_coins token_idx new_y d1 d0 j (x ∷ xs) = do
    ideal ← scaled_down x d1 d0
    let own = sub_checked ideal new_y
    let other = sub_checked x ideal
    dx_expected ← if j == token_idx then own else other
    numerator ← fit 32 (p.fee * n_coins)
    spare ← sub_checked n_coins 1
    denominator ← fit 32 (fee_denominator * 4 * spare)
    fee ← m.fixed_mul_ceil dx_expected numerator denominator
    reduced ← sub_checked x fee
    rest ← charge_all p n_coins token_idx new_y d1 d0 (suc j) xs
    ok (reduced ∷ rest)

  -- `LiquidityPool::_calc_withdraw_one_coin`: the amount, and the fee.
  unfoldable pub calc_withdraw_one_coin : Env → Stable → ℕ → ℕ → Result (ℕ × ℕ)
  calc_withdraw_one_coin e p token_amount token_idx = do
    amp ← a e p
    xs ← xp p p.reserves
    let n_coins = length xs
    d0 ← get_d (length p.tokens) xs amp
    product ← m.mul token_amount d0
    part ← m.div product p.total_shares
    d1 ← m.sub d0 part
    new_y ← get_y_d p amp token_idx xs d1
    scales ← get_precision_mul p.decimals
    scale ← get scales token_idx
    x ← get xs token_idx
    freed ← sub_checked x new_y
    dy_0 ← div_checked freed scale
    reduced ← charge_all p n_coins token_idx new_y d1 d0 0 xs
    x' ← get reduced token_idx
    y' ← get_y_d p amp token_idx reduced d1
    raw ← sub_checked x' y'
    less ← sub_checked raw 1
    dy ← div_checked less scale
    fee ← sub_checked dy_0 dy
    ok (dy, fee)

  module _ {S : Type 0} (o : Outside S) (update_plane : Stable → S → Result S) where
    -- One turn of the loop of `withdraw`: what is left of the reserve, and what was paid.
    unfoldable pub pay_part : Env → Address → ℕ → ℕ → Address → ℕ → ℕ → S → Result ((ℕ × ℕ) × S)
    pay_part e user share_amount total_supply coin reserve least s = do
      value ← m.fixed_mul_floor reserve share_amount total_supply
      panic_if (ltb value least) (validation out_min_not_satisfied)
      left ← sub_checked reserve value
      s₁ ← o.transfer coin e.current_contract user (as_i128 value) s
      ok ((left, value), s₁)

    -- The loop of `withdraw`: the user's part of each reserve, which is paid. The result is what is
    -- left and what was paid.
    unfoldable pub pay_parts :
        Env → Address → ℕ → ℕ → List Address → List ℕ → List ℕ → S → Result ((List ℕ × List ℕ) × S)
    pay_parts e user share_amount total_supply [] reserves mins s = ok ((reserves, []), s)
    pay_parts e user share_amount total_supply (coin ∷ coins) (reserve ∷ reserves) (least ∷ mins)
          s =
        do
          turn ← pay_part e user share_amount total_supply coin reserve least s
          rest ← pay_parts e user share_amount total_supply coins reserves mins turn.1
          ok ((turn.0.0 ∷ rest.0.0, turn.0.1 ∷ rest.0.1), rest.1)
    pay_parts e user share_amount total_supply _ _ _ s = err (host trap)

    -- `burn_shares` of token_share/src/lib.rs
    unfoldable pub burn_shares : Stable → Address → ℕ → S → Result (Stable × S)
    burn_shares p from amount s = do
      total ← sub_checked p.total_shares amount
      s' ← o.burn p.token_share from (as_i128 amount) s
      ok (record p { total_shares = total }, s')

    -- What withdrawals end with: the working balance of the user, and the plane.
    unfoldable pub conclude : Stable → Address → ℕ → ℕ → ℕ → S → Result (Stable × S)
    conclude p user total_shares user_shares share_amount s = do
      user_left ← sub_checked user_shares share_amount
      total_left ← sub_checked total_shares share_amount
      s₁ ← checkpoint_after o user user_left total_left total_left user_left s
      s₂ ← update_plane p s₁
      ok (p, s₂)

    unfoldable pub withdraw :
        Env → Stable × S → Address → ℕ → List ℕ → Result (List ℕ × (Stable × S))
    withdraw e (p₀, s) user share_amount min_amounts = do
      require_auth e user
      panic_if (not (length min_amounts == length p₀.tokens)) (validation wrong_input_vec_size)
      p ← sync_reserves o e p₀ s
      let user_shares = o.balance p.token_share user s
      s₁ ← checkpoint_before o user p.total_shares user_shares s
      paid ← pay_parts e user share_amount p.total_shares p.tokens p.reserves min_amounts s₁
      let left = record p { reserves = paid.0.0 }
      burned ← burn_shares left user share_amount paid.1
      done ← conclude burned.0 user p.total_shares user_shares share_amount burned.1
      ok (paid.0.1, done)

    -- The amounts of `withdraw_one_coin`: `dy` at the token's index and 0 elsewhere.
    unfoldable pub amounts_at : ℕ → ℕ → ℕ → List Address → List ℕ
    amounts_at i dy k [] = []
    amounts_at i dy k (coin ∷ coins) = (if k == i then dy else 0) ∷ amounts_at i dy (suc k) coins

    unfoldable pub withdraw_one_coin :
        Env → Stable × S → Address → ℕ → ℕ → ℕ → Result (List ℕ × (Stable × S))
    withdraw_one_coin e (p₀, s) user share_amount i min_amount = do
      require_auth e user
      panic_if p₀.is_killed_swap (stableswap StableswapError.pool_swap_killed)
      p ← sync_reserves o e p₀ s
      let user_shares = o.balance p.token_share user s
      s₁ ← checkpoint_before o user p.total_shares user_shares s
      quote ← calc_withdraw_one_coin e p share_amount i
      let dy = quote.0
      panic_if (ltb dy min_amount) (validation in_min_not_satisfied)
      dy_protocol_fee ← m.fixed_mul_ceil quote.1 p.protocol_fee_fraction fee_denominator
      reserve ← get p.reserves i
      lowered ← sub_checked reserve dy
      left ← sub_checked lowered dy_protocol_fee
      reserves ← set p.reserves i left
      fee ← get p.protocol_fees i
      new_fee ← fit 128 (fee + dy_protocol_fee)
      fees ← set p.protocol_fees i new_fee
      let booked = record p { reserves = reserves; protocol_fees = fees }
      burned ← burn_shares booked user share_amount s₁
      coin ← get p.tokens i
      s₂ ← o.transfer coin e.current_contract user (as_i128 dy) burned.1
      done ← conclude burned.0 user p.total_shares user_shares share_amount s₂
      ok (amounts_at i dy 0 p.tokens, done)

    -- `calc_withdraw_one_coin` of the interface.
    unfoldable pub estimate_withdraw_one_coin : Env → Stable × S → ℕ → ℕ → Result (ℕ × Stable)
    estimate_withdraw_one_coin e (p₀, s) share_amount i = do
      p ← sync_reserves o e p₀ s
      quote ← calc_withdraw_one_coin e p share_amount i
      ok (quote.0, p)
