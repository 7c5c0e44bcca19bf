-- ===== src/Pool/Swap.antt =====
-- liquidity_pool/src/contract.rs: the swaps and their estimates.
use soroban_amm.Prelude.{ℕ, ◌+◌, ◌*◌, ◌/◌, ◌||◌, true, false, ltb, ◌==◌, if◌then◌else◌}
use soroban_amm.Host.{
  Address, Env, Math, Result, ok, ◌>>=◌, ◌>>◌, panic_if, require_auth, validation, pool,
  invariant_does_not_hold, pool_swap_killed, cannot_swap_same_token, in_token_out_of_bounds,
  out_token_out_of_bounds, zero_amount, empty_pool, out_min_not_satisfied, in_max_not_satisfied,
  fit, sub_checked,
}
use soroban_amm.Host.Integer.{as_i128}
use soroban_amm.Pool.Formulas.{fee_multiplier, get_amount_out, get_amount_out_strict_receive}
use soroban_amm.Pool.State.{Pool, Outside, sync_reserves}

-- The checks of the token indices.
unfoldable pub check_indices : ℕ → ℕ → Result (Unit {0})
check_indices in_idx out_idx = do
  panic_if (in_idx == out_idx) (validation cannot_swap_same_token)
  panic_if (ltb 1 in_idx) (validation in_token_out_of_bounds)
  panic_if (ltb 1 out_idx) (validation out_token_out_of_bounds)

-- The pool seen from the side of token `idx`; the index is 0 or 1 once `check_indices` has passed.
abbrev pub reserve_at : Pool → ℕ → ℕ
reserve_at p idx = if idx == 0 then p.reserve_a else p.reserve_b

abbrev pub token_at : Pool → ℕ → Address
token_at p idx = if idx == 0 then p.token_a else p.token_b

module _ ⦃m : Math⦄ where
  -- `new_invariant_factor`: the reserve as the invariant counts it, scaled by the fee multiplier.
  unfoldable pub new_invariant_factor : ℕ → ℕ → ℕ → ℕ → Result ℕ
  new_invariant_factor residue_numerator reserve old_reserve out = do
    gained ← sub_checked reserve old_reserve
    elim (ltb out gained) [
      | true ↦ do
        old ← m.mul fee_multiplier old_reserve
        rest ← sub_checked gained out
        residue ← m.mul residue_numerator rest
        m.add old residue
      | false ↦ do
        old ← m.mul fee_multiplier old_reserve
        new ← m.mul fee_multiplier reserve
        both ← m.add old new
        owed ← fit 128 (old_reserve + out)
        scaled ← m.mul fee_multiplier owed
        m.sub both scaled
    ]

  -- The part of the swaps from `base_fee_fraction` to the panic: the product of the reserves, less
  -- the part of the fee that stays in the pool, must not fall.
  unfoldable pub check_invariant : Pool → ℕ → ℕ → ℕ → ℕ → Result (Unit {0})
  unfolding new_invariant_factor
  check_invariant p new_reserve_a new_reserve_b out_a out_b = do
    scaled ← fit 128 (p.fee_fraction * p.protocol_fee_fraction)
    let protocol_fee_frac = scaled / fee_multiplier
    pool_fee_frac ← sub_checked p.fee_fraction protocol_fee_frac
    residue_numerator ← sub_checked fee_multiplier pool_fee_frac
    new_inv_a ← new_invariant_factor residue_numerator new_reserve_a p.reserve_a out_a
    new_inv_b ← new_invariant_factor residue_numerator new_reserve_b p.reserve_b out_b
    old_inv_a ← m.mul fee_multiplier p.reserve_a
    old_inv_b ← m.mul fee_multiplier p.reserve_b
    new_product ← m.mul new_inv_a new_inv_b
    old_product ← m.mul old_inv_a old_inv_b
    panic_if (ltb new_product old_product) (pool invariant_does_not_hold)

  -- The reserves with the input taken in, which must pass the invariant.
  unfoldable pub take_in : Pool → ℕ → ℕ → ℕ → ℕ → Result (ℕ × ℕ)
  take_in p in_idx out_idx in_amount out = do
    sold ← fit 128 (reserve_at p in_idx + in_amount)
    let new_a = if in_idx == 0 then sold else p.reserve_a
    let new_b = if in_idx == 0 then p.reserve_b else sold
    let out_a = if out_idx == 0 then out else 0
    let out_b = if out_idx == 0 then 0 else out
    check_invariant p new_a new_b out_a out_b
    ok (new_a, new_b)

  module _ {S : Type 0} (o : Outside S) where
    abbrev finish : Pool → S → Result (Pool × S)
    finish p s = o.update_plane p s >>= λ s'. ok (p, s')

    -- The end of both swaps: the output is paid, and the protocol's part of the fee leaves the
    -- reserve of the token sold.
    unfoldable pub pay_out : Env → Pool → Address → ℕ → ℕ × ℕ → ℕ → ℕ → S → Result (Pool × S)
    pay_out e p user out_idx (new_a, new_b) out protocol_fee s = elim (out_idx == 0) [
      | true ↦ do
        s₁ ← o.transfer p.token_a e.current_contract user (as_i128 out) s
        a ← sub_checked new_a out
        b ← sub_checked new_b protocol_fee
        fee ← fit 128 (p.protocol_fee_b + protocol_fee)
        finish (record p { reserve_a = a; reserve_b = b; protocol_fee_b = fee }) s₁
      | false ↦ do
        s₁ ← o.transfer p.token_b e.current_contract user (as_i128 out) s
        a ← sub_checked new_a protocol_fee
        b ← sub_checked new_b out
        fee ← fit 128 (p.protocol_fee_a + protocol_fee)
        finish (record p { reserve_a = a; reserve_b = b; protocol_fee_a = fee }) s₁
    ]

    unfoldable pub swap : Env → Pool × S → Address → ℕ → ℕ → ℕ → ℕ → Result (ℕ × (Pool × S))
    swap e (p₀, s) user in_idx out_idx in_amount out_min = do
      require_auth e user
      panic_if p₀.is_killed_swap (pool pool_swap_killed)
      check_indices in_idx out_idx
      panic_if (in_amount == 0) (validation zero_amount)
      p ← sync_reserves o e p₀ s
      let reserve_sell = reserve_at p in_idx
      let reserve_buy = reserve_at p out_idx
      panic_if (reserve_sell == 0 || reserve_buy == 0) (validation empty_pool)
      quote ← get_amount_out p.fee_fraction in_amount reserve_sell reserve_buy
      let out = quote.0
      scaled ← fit 128 (quote.1 * p.protocol_fee_fraction)
      let protocol_fee = scaled / fee_multiplier
      lp_fee ← sub_checked quote.1 protocol_fee
      panic_if (ltb out out_min) (validation out_min_not_satisfied)
      s₁ ← o.transfer (token_at p in_idx) user e.current_contract (as_i128 in_amount) s
      new ← take_in p in_idx out_idx in_amount out
      done ← pay_out e p user out_idx new out protocol_fee s₁
      ok (out, done)

    unfoldable pub estimate_swap : Env → Pool × S → ℕ → ℕ → ℕ → Result (ℕ × Pool)
    estimate_swap e (p₀, s) in_idx out_idx in_amount = do
      check_indices in_idx out_idx
      p ← sync_reserves o e p₀ s
      quote ← get_amount_out p.fee_fraction in_amount (reserve_at p in_idx) (reserve_at p out_idx)
      ok (quote.0, p)

    unfoldable pub swap_strict_receive :
        Env → Pool × S → Address → ℕ → ℕ → ℕ → ℕ → Result (ℕ × (Pool × S))
    swap_strict_receive e (p₀, s) user in_idx out_idx out_amount in_max = do
      require_auth e user
      panic_if p₀.is_killed_swap (pool pool_swap_killed)
      check_indices in_idx out_idx
      panic_if (out_amount == 0) (validation zero_amount)
      p ← sync_reserves o e p₀ s
      let reserve_sell = reserve_at p in_idx
      let reserve_buy = reserve_at p out_idx
      panic_if (reserve_sell == 0 || reserve_buy == 0) (validation empty_pool)
      quote ← get_amount_out_strict_receive p.fee_fraction out_amount reserve_sell reserve_buy
      let in_amount = quote.0
      panic_if (ltb in_max in_amount) (validation in_max_not_satisfied)
      s₁ ← o.transfer (token_at p in_idx) user e.current_contract (as_i128 in_max) s
      refund ← sub_checked in_max in_amount
      let return_refund = o.transfer (token_at p in_idx) e.current_contract user (as_i128 refund) s₁
      s₂ ← if ltb 0 refund then return_refund else ok s₁
      new ← take_in p in_idx out_idx in_amount out_amount
      scaled ← fit 128 (quote.1 * p.protocol_fee_fraction)
      let protocol_fee = scaled / fee_multiplier
      lp_fee ← sub_checked quote.1 protocol_fee
      done ← pay_out e p user out_idx new out_amount protocol_fee s₂
      ok (in_amount, done)

    unfoldable pub estimate_swap_strict_receive : Env → Pool × S → ℕ → ℕ → ℕ → Result (ℕ × Pool)
    estimate_swap_strict_receive e (p₀, s) in_idx out_idx out_amount = do
      check_indices in_idx out_idx
      p ← sync_reserves o e p₀ s
      quote ←
          get_amount_out_strict_receive p.fee_fraction out_amount (reserve_at p in_idx)
            (reserve_at p out_idx)
      ok (quote.0, p)
