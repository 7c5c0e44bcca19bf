-- ===== src/Stableswap/Swap.antt =====
-- liquidity_pool_stableswap/src/contract.rs: the swaps and their estimates.
pub mod Curve
use soroban_amm.Prelude.{ℕ, ◌+◌, ◌-◌, ◌*◌, ◌||◌, true, false, List, ltb, leb, ◌==◌, if◌then◌else◌}
use soroban_amm.Host.{
  Address, Env, Math, Result, ok, ◌>>=◌, ◌>>◌, panic_if, require_auth, validation, stableswap,
  StableswapError, zero_amount, empty_pool, out_min_not_satisfied, in_max_not_satisfied,
  insufficient_balance, guard, fit, sub_checked, div_checked,
}
use soroban_amm.Host.Integer.{as_i128}
use soroban_amm.Pool.State.{Outside}
use soroban_amm.Stableswap.State.{Stable, fee_denominator, get, set, get_precision_mul, xp}
use soroban_amm.Stableswap.Solve.{get_y}
use soroban_amm.Stableswap.Reserves.{sync_reserves}

-- The writes of a trade: the input less the protocol's fee is added to the reserve of the token
-- sold, the output is taken from the other, and the fee is booked.
unfoldable pub book_trade : Stable → ℕ → ℕ → ℕ → ℕ → ℕ → Result Stable
book_trade p in_idx out_idx in_amount out protocol_fee = do
  old_in ← get p.reserves in_idx
  grown ← fit 128 (old_in + in_amount)
  new_in ← sub_checked grown protocol_fee
  sold ← set p.reserves in_idx new_in
  old_out ← get p.reserves out_idx
  new_out ← sub_checked old_out out
  reserves ← set sold out_idx new_out
  fee ← get p.protocol_fees in_idx
  new_fee ← fit 128 (fee + protocol_fee)
  fees ← set p.protocol_fees in_idx new_fee
  ok (record p { reserves = reserves; protocol_fees = fees })

-- `if tokens_to_return > 0 { token.transfer(pool, user, tokens_to_return) }`
unfoldable pub return_rest : {S : Type 0} → Outside S → Env → Address → Address → ℕ → S → Result S
return_rest o e coin user amount s =
    let call = o.transfer coin e.current_contract user (as_i128 amount) s in
    if ltb 0 amount then call else ok s

-- The output of a trade that solves the curve at `y`; one unit less for rounding errors.
unfoldable pub output_at : List ℕ → List ℕ → ℕ → ℕ → Result ℕ
output_at scales xs out_idx y = do
  x_out ← get xs out_idx
  above ← sub_checked x_out y
  less ← sub_checked above 1
  scale ← get scales out_idx
  div_checked less scale

-- The balance of the token sold with the input, without the fee, in it.
unfoldable pub grown_at : List ℕ → List ℕ → ℕ → ℕ → ℕ → Result ℕ
grown_at scales xs in_idx amount dx_fee = do
  x_in ← get xs in_idx
  net ← sub_checked amount dx_fee
  scale ← get scales in_idx
  scaled ← fit 128 (net * scale)
  fit 128 (x_in + scaled)

-- The input of a trade that solves the curve at `x`, without the fee.
unfoldable pub input_at : List ℕ → List ℕ → ℕ → ℕ → Result ℕ
input_at scales xs in_idx x = do
  x_in ← get xs in_idx
  above ← sub_checked x x_in
  more ← fit 128 (above + 1)
  scale ← get scales in_idx
  div_checked more scale

-- The balance of the token bought with the output taken out.
unfoldable pub shrunk_at : List ℕ → List ℕ → ℕ → ℕ → Result ℕ
shrunk_at scales xs out_idx amount = do
  x_out ← get xs out_idx
  scale ← get scales out_idx
  scaled ← fit 128 (amount * scale)
  guard (leb scaled x_out) (validation insufficient_balance)
  ok (x_out - scaled)

module _ ⦃m : Math⦄ where
  unfoldable pub with_fee : Stable → ℕ → Result ℕ
  with_fee p amount = do
    rest ← sub_checked fee_denominator p.fee
    m.fixed_mul_ceil amount fee_denominator rest

  -- `LiquidityPool::_get_dy`
  unfoldable pub get_dy : Env → Stable → ℕ → ℕ → ℕ → Result ℕ
  get_dy e p i j dx = do
    dx_fee ← m.fixed_mul_ceil dx p.fee fee_denominator
    scales ← get_precision_mul p.decimals
    xs ← xp p p.reserves
    x ← grown_at scales xs i dx dx_fee
    y ← get_y e p i j x xs
    elim (y == 0) [ true ↦ ok 0 | false ↦ output_at scales xs j y ]

  -- `LiquidityPool::_get_dx`
  unfoldable pub get_dx : Env → Stable → ℕ → ℕ → ℕ → Result ℕ
  get_dx e p i j dy = do
    scales ← get_precision_mul p.decimals
    xs ← xp p p.reserves
    xp_buy ← get xs j
    scale ← get scales j
    dy_scaled ← fit 128 (dy * scale)
    panic_if (leb xp_buy dy_scaled) (validation insufficient_balance)
    y ← sub_checked xp_buy dy_scaled
    x ← get_y e p j i y xs
    elim (x == 0) [ true ↦ ok 0 | false ↦ do dx ← input_at scales xs i x; with_fee p dx ]

  module _ {S : Type 0} (o : Outside S) (update_plane : Stable → S → Result S) where
    -- The end of both swaps: the books, the output, and the plane.
    unfoldable pub settle : Env → Stable → Address → ℕ → ℕ → ℕ → ℕ → ℕ → S → Result (Stable × S)
    settle e p user in_idx out_idx in_amount out protocol_fee s = do
      booked ← book_trade p in_idx out_idx in_amount out protocol_fee
      token_out ← get p.tokens out_idx
      s₁ ← o.transfer token_out e.current_contract user (as_i128 out) s
      s₂ ← update_plane booked s₁
      ok (booked, s₂)

    unfoldable pub swap : Env → Stable × S → Address → ℕ → ℕ → ℕ → ℕ → Result (ℕ × (Stable × S))
    swap e (p₀, s) user in_idx out_idx in_amount out_min = do
      require_auth e user
      panic_if p₀.is_killed_swap (stableswap StableswapError.pool_swap_killed)
      panic_if (in_amount == 0) (validation zero_amount)
      p ← sync_reserves o e p₀ s
      scales ← get_precision_mul p.decimals
      xs ← xp p p.reserves
      input_coin ← get p.tokens in_idx
      s₁ ← o.transfer input_coin user e.current_contract (as_i128 in_amount) s
      reserve_sell ← get p.reserves in_idx
      reserve_buy ← get p.reserves out_idx
      panic_if (reserve_sell == 0 || reserve_buy == 0) (validation empty_pool)
      dx_fee ← m.fixed_mul_ceil in_amount p.fee fee_denominator
      dx_protocol_fee ← m.fixed_mul_ceil dx_fee p.protocol_fee_fraction fee_denominator
      x ← grown_at scales xs in_idx in_amount dx_fee
      y ← get_y e p in_idx out_idx x xs
      dy ← output_at scales xs out_idx y
      panic_if (ltb dy out_min) (validation out_min_not_satisfied)
      done ← settle e p user in_idx out_idx in_amount dy dx_protocol_fee s₁
      ok (dy, done)

    unfoldable pub estimate_swap : Env → Stable × S → ℕ → ℕ → ℕ → Result (ℕ × Stable)
    estimate_swap e (p₀, s) in_idx out_idx in_amount = do
      p ← sync_reserves o e p₀ s
      dy ← get_dy e p in_idx out_idx in_amount
      ok (dy, p)

    -- The end of `swap_strict_receive`: what exceeds the input `dx` is returned.
    unfoldable pub refund :
        Env → Stable → Address → ℕ × ℕ → Address → ℕ × ℕ → ℕ → ℕ → S → Result (Stable × S)
    refund e p user (in_idx, out_idx) input_coin (in_max, dx) out_amount dx_protocol_fee s₁ = do
      panic_if (ltb in_max dx) (validation in_max_not_satisfied)
      tokens_to_return ← sub_checked in_max dx
      s₂ ← return_rest o e input_coin user tokens_to_return s₁
      settle e p user in_idx out_idx dx out_amount dx_protocol_fee s₂

    unfoldable pub swap_strict_receive :
        Env → Stable × S → Address → ℕ → ℕ → ℕ → ℕ → Result (ℕ × (Stable × S))
    swap_strict_receive e (p₀, s) user in_idx out_idx out_amount in_max = do
      require_auth e user
      panic_if p₀.is_killed_swap (stableswap StableswapError.pool_swap_killed)
      panic_if (out_amount == 0) (validation zero_amount)
      p ← sync_reserves o e p₀ s
      scales ← get_precision_mul p.decimals
      xs ← xp p p.reserves
      input_coin ← get p.tokens in_idx
      s₁ ← o.transfer input_coin user e.current_contract (as_i128 in_max) s
      reserve_sell ← get p.reserves in_idx
      reserve_buy ← get p.reserves out_idx
      panic_if (reserve_sell == 0 || reserve_buy == 0) (validation empty_pool)
      panic_if (leb reserve_buy out_amount) (validation insufficient_balance)
      y ← shrunk_at scales xs out_idx out_amount
      x ← get_y e p out_idx in_idx y xs
      dx_wo_fee ← input_at scales xs in_idx x
      dx ← with_fee p dx_wo_fee
      dx_fee ← sub_checked dx dx_wo_fee
      dx_protocol_fee ← m.fixed_mul_ceil dx_fee p.protocol_fee_fraction fee_denominator
      done ← refund e p user (in_idx, out_idx) input_coin (in_max, dx) out_amount dx_protocol_fee s₁
      ok (dx, done)

    unfoldable pub estimate_swap_strict_receive : Env → Stable × S → ℕ → ℕ → ℕ → Result (ℕ × Stable)
    estimate_swap_strict_receive e (p₀, s) in_idx out_idx out_amount = do
      p ← sync_reserves o e p₀ s
      dx ← get_dx e p in_idx out_idx out_amount
      ok (dx, p)
