-- ===== src/Concentrated/Positions.antt =====
-- liquidity_pool_concentrated/src/contract/extensions.rs and internal.rs: deposits into a range,
-- withdrawals and the collection of fees. Events are left out.
use soroban_amm.Prelude.{
  ℕ, ◌+◌, ◌-◌, ◌^◌, Bool, true, false, ◌&&◌, ◌||◌, not, none, some, List, [], ◌∷◌, ltb, leb, ◌==◌,
  if◌then◌else◌,
}
use soroban_amm.Host.{
  Address, Env, Math, Result, ok, ◌>>=◌, ◌>>◌, panic_if, or_panic, require_auth, fit, sub_checked,
  concentrated, ConcentratedPoolError, validation, ValidationError,
}
use soroban_amm.Host.Integer.{ℤ, pos, ◌-ℤ◌, ltb_ℤ, as_i128}
use soroban_amm.Pool.State.{Outside, two}
use soroban_amm.Pool.Liquidity.{checkpoint_before, checkpoint_after}
use soroban_amm.Concentrated.Ticks.{eqb_ℤ, max_liquidity_per_tick}
use soroban_amm.Concentrated.Math.{
  amount0_delta, amount1_delta, liquidity_for_amount0, liquidity_for_amount1,
  sqrt_price_from_amounts,
}
use soroban_amm.Concentrated.Math.Ratios.{sqrt_ratio_at_tick, tick_at_sqrt_ratio}
use soroban_amm.Concentrated.State.{Pool, Slot0, PositionData, PositionRange, put_position}
use soroban_amm.Concentrated.Liquidity.{
  check_ticks_internal, full_range_ticks, update_tick_liquidity, ensure_user_range_exists,
  remove_user_range_if_empty, update_user_raw_liquidity, saturating_add, or_underflow,
}
use soroban_amm.Concentrated.Fees.{accrue_position_fees, get_or_create_position}
use soroban_amm.Concentrated.Weight.{recompute_user_weighted_liquidity}

abbrev pub at_most : ℕ → ℕ → ℕ
at_most a b = if ltb a b then a else b

-- Whether a tick lies in a range, whose upper end is not part of it.
abbrev pub is_inside : ℤ → ℤ → ℤ → Bool
is_inside tick lower upper = not (ltb_ℤ tick lower) && ltb_ℤ tick upper

-- `if amount > 0 { token.transfer(from, to, amount) }`
unfoldable pub send : {S : Type 0} → Outside S → Address → Address → Address → ℕ → S → Result S
send o token from to amount s =
    let call = o.transfer token from to (as_i128 amount) s in if ltb 0 amount then call else ok s

module _ ⦃m : Math⦄ where
  unfoldable pub init_sqrt_price_for_range : ℤ → ℤ → ℕ → ℕ → Result Slot0
  init_sqrt_price_for_range tick_lower tick_upper desired_amount0 desired_amount1 = do
    sqrt_price ← sqrt_price_from_amounts desired_amount0 desired_amount1
    tick ← tick_at_sqrt_ratio sqrt_price
    panic_if (not (is_inside tick tick_lower tick_upper))
        (concentrated ConcentratedPoolError.tick_out_of_bounds)
    ok (record { sqrt_price_x96 = sqrt_price; tick = tick })

  unfoldable pub amounts_for_liquidity : Slot0 → ℤ → ℤ → ℕ → Bool → Result (ℕ × ℕ)
  amounts_for_liquidity slot tick_lower tick_upper liquidity round_up = do
    let price = slot.sqrt_price_x96
    sqrt_lower ← sqrt_ratio_at_tick tick_lower
    sqrt_upper ← sqrt_ratio_at_tick tick_upper
    elim (leb price sqrt_lower) [
      | true ↦ do amount0 ← amount0_delta sqrt_lower sqrt_upper liquidity round_up; ok (amount0, 0)
      | false ↦ elim (ltb price sqrt_upper) [
        | true ↦ do
          amount0 ← amount0_delta price sqrt_upper liquidity round_up
          amount1 ← amount1_delta sqrt_lower price liquidity round_up
          ok (amount0, amount1)
        | false ↦ do
          amount1 ← amount1_delta sqrt_lower sqrt_upper liquidity round_up
          ok (0, amount1)
      ]
    ]

  unfoldable pub max_liquidity_for_amounts_at_slot : Slot0 → ℤ → ℤ → ℕ → ℕ → Result ℕ
  max_liquidity_for_amounts_at_slot slot tick_lower tick_upper desired_amount0 desired_amount1 =
      elim (desired_amount0 == 0 && desired_amount1 == 0) [
        | true ↦ ok 0
        | false ↦ do
          let price = slot.sqrt_price_x96
          sqrt_lower ← sqrt_ratio_at_tick tick_lower
          sqrt_upper ← sqrt_ratio_at_tick tick_upper
          elim (leb price sqrt_lower) [
            | true ↦ liquidity_for_amount0 sqrt_lower sqrt_upper desired_amount0
            | false ↦ elim (leb sqrt_upper price) [
              | true ↦ liquidity_for_amount1 sqrt_lower sqrt_upper desired_amount1
              | false ↦ do
                l0 ← liquidity_for_amount0 price sqrt_upper desired_amount0
                l1 ← liquidity_for_amount1 sqrt_lower price desired_amount1
                ok (at_most l0 l1)
            ]
          ]
      ]

  -- The price of an empty pool is that of the first deposit; otherwise it is the pool's.
  unfoldable pub slot_for_deposit : Pool → ℤ → ℤ → ℕ × ℕ → Result Slot0
  slot_for_deposit p tick_lower tick_upper desired = elim (p.total_raw_liquidity == 0) [
    | true ↦ do
      panic_if (desired.0 == 0 || desired.1 == 0) (validation ValidationError.all_coins_required)
      init_sqrt_price_for_range tick_lower tick_upper desired.0 desired.1
    | false ↦ ok p.slot0
  ]

  -- The amounts of a deposit, rounded up but at most what was given.
  unfoldable pub deposit_amounts : Slot0 → ℤ → ℤ → ℕ → ℕ × ℕ → Result (ℕ × ℕ)
  deposit_amounts slot tick_lower tick_upper liquidity desired = do
    amounts ← amounts_for_liquidity slot tick_lower tick_upper liquidity true
    ok (at_most amounts.0 desired.0, at_most amounts.1 desired.1)

  unfoldable pub estimate_deposit_position : Pool → ℤ → ℤ → List ℕ → Result ((ℕ × ℕ) × ℕ)
  estimate_deposit_position p tick_lower tick_upper desired_amounts = do
    desired ← two desired_amounts
    panic_if (desired.0 == 0 && desired.1 == 0) (validation ValidationError.zero_amount)
    check_ticks_internal p tick_lower tick_upper
    slot ← slot_for_deposit p tick_lower tick_upper desired
    liquidity ← max_liquidity_for_amounts_at_slot slot tick_lower tick_upper desired.0 desired.1
    panic_if (liquidity == 0) (validation ValidationError.out_min_not_satisfied)
    panic_if (leb (2 ^ 127) liquidity)
        (concentrated ConcentratedPoolError.liquidity_amount_too_large)
    panic_if (ltb (max_liquidity_per_tick p.tick_spacing) liquidity)
        (concentrated ConcentratedPoolError.liquidity_overflow)
    amounts ← deposit_amounts slot tick_lower tick_upper liquidity desired
    ok (amounts, liquidity)

  unfoldable pub is_full_range : Pool → ℤ → ℤ → Result Bool
  is_full_range p tick_lower tick_upper = do
    range ← full_range_ticks p
    ok (eqb_ℤ tick_lower range.0 && eqb_ℤ tick_upper range.1)

  -- A deposit in the pool: the reserves, the ticks, and the position with its fees.
  unfoldable pub open_position : Address → ℤ → ℤ → ℕ → ℕ × ℕ → Pool → Result Pool
  open_position sender tick_lower tick_upper liquidity amounts p = do
    reserve0 ← fit 128 (p.reserve0 + amounts.0)
    reserve1 ← fit 128 (p.reserve1 + amounts.1)
    p₁ ←
        update_tick_liquidity tick_lower (pos liquidity) false
          (record p { reserve0 = reserve0; reserve1 = reserve1 })
    p₂ ← update_tick_liquidity tick_upper (pos liquidity) true p₁
    position ← get_or_create_position p₂ sender tick_lower tick_upper
    accrued ← accrue_position_fees p₂ position tick_lower tick_upper p.slot0.tick
    let grown : PositionData = record accrued {
      liquidity = saturating_add accrued.liquidity liquidity;
    }
    ensure_user_range_exists sender tick_lower tick_upper
        (put_position sender tick_lower tick_upper (some grown) p₂)

  -- The sums of liquidity after a deposit.
  unfoldable pub add_liquidity : ℤ → ℤ → Bool → ℕ → Pool → Result Pool
  add_liquidity tick_lower tick_upper full liquidity p = do
    panic_if (full && not (ltb (p.full_range_liquidity + liquidity) (2 ^ 128)))
        (concentrated ConcentratedPoolError.liquidity_overflow)
    ok (record p {
      liquidity =
          if is_inside p.slot0.tick tick_lower tick_upper
          then saturating_add p.liquidity liquidity
          else p.liquidity;
      full_range_liquidity =
          if full then p.full_range_liquidity + liquidity else p.full_range_liquidity;
    })

  -- The sums of liquidity after a withdrawal.
  unfoldable pub remove_liquidity : ℤ → ℤ → Bool → ℕ → Pool → Result Pool
  remove_liquidity tick_lower tick_upper full amount p = do
    active ← elim (is_inside p.slot0.tick tick_lower tick_upper) [
      | true ↦ or_underflow p.liquidity amount
      | false ↦ ok p.liquidity
    ]
    full_range ← elim full [
      | true ↦ or_underflow p.full_range_liquidity amount
      | false ↦ ok p.full_range_liquidity
    ]
    ok (record p { liquidity = active; full_range_liquidity = full_range })

  -- `checked_add` of a withdrawal, with its panic.
  unfoldable pub with_fees : ℕ → ℕ → Result ℕ
  with_fees amount fees = do
    panic_if (not (ltb (amount + fees) (2 ^ 128)))
        (concentrated ConcentratedPoolError.invalid_amount)
    ok (amount + fees)

  -- The position after a withdrawal, which also collects its fees; an empty one is removed.
  unfoldable pub shrink_position : Address → ℤ → ℤ → PositionData → ℕ → Pool → Pool
  shrink_position owner tick_lower tick_upper position amount p =
      let left : PositionData = record position {
        liquidity = position.liquidity - amount;
        tokens_owed_0 = 0;
        tokens_owed_1 = 0;
      } in
      if position.liquidity - amount == 0
      then remove_user_range_if_empty owner tick_lower tick_upper
          (put_position owner tick_lower tick_upper none p)
      else put_position owner tick_lower tick_upper (some left) p

  -- A withdrawal in the pool.
  unfoldable pub close_position : Address → ℤ → ℤ → Bool → PositionData → ℕ → Pool → Result Pool
  close_position owner tick_lower tick_upper full position amount p = do
    let p₁ = shrink_position owner tick_lower tick_upper position amount p
    p₂ ← update_tick_liquidity tick_lower (pos 0 -ℤ pos amount) false p₁
    p₃ ← update_tick_liquidity tick_upper (pos 0 -ℤ pos amount) true p₂
    p₄ ← remove_liquidity tick_lower tick_upper full amount p₃
    p₅ ← update_user_raw_liquidity owner (pos 0 -ℤ pos amount) p₄
    ok (recompute_user_weighted_liquidity owner p₅)

  -- The position with its fees, what a withdrawal from it pays, and the fees in that.
  unfoldable pub withdrawal_of : Pool → ℤ → ℤ → PositionData → ℕ → Result (PositionData × (ℕ × ℕ))
  withdrawal_of p tick_lower tick_upper position amount = do
    accrued ← accrue_position_fees p position tick_lower tick_upper p.slot0.tick
    panic_if (ltb accrued.liquidity amount)
        (concentrated ConcentratedPoolError.insufficient_liquidity)
    amounts ← amounts_for_liquidity p.slot0 tick_lower tick_upper amount false
    total0 ← with_fees amounts.0 accrued.tokens_owed_0
    total1 ← with_fees amounts.1 accrued.tokens_owed_1
    ok (accrued, (total0, total1))

  unfoldable pub estimate_withdraw_position : Pool → Address → ℤ → ℤ → ℕ → Result (ℕ × ℕ)
  estimate_withdraw_position p owner tick_lower tick_upper amount = do
    panic_if (amount == 0) (validation ValidationError.zero_amount)
    panic_if (leb (2 ^ 127) amount) (concentrated ConcentratedPoolError.liquidity_amount_too_large)
    check_ticks_internal p tick_lower tick_upper
    position ←
        or_panic (p.positions owner tick_lower tick_upper)
          (concentrated ConcentratedPoolError.position_not_found)
    panic_if (ltb position.liquidity amount)
        (concentrated ConcentratedPoolError.insufficient_liquidity)
    withdrawal ← withdrawal_of p tick_lower tick_upper position amount
    panic_if (ltb p.reserve0 withdrawal.1.0) (validation ValidationError.insufficient_balance)
    panic_if (ltb p.reserve1 withdrawal.1.1) (validation ValidationError.insufficient_balance)
    ok withdrawal.1

  unfoldable pub get_position_fees : Pool → Address → ℤ → ℤ → Result (ℕ × ℕ)
  get_position_fees p owner tick_lower tick_upper = do
    check_ticks_internal p tick_lower tick_upper
    position ←
        or_panic (p.positions owner tick_lower tick_upper)
          (concentrated ConcentratedPoolError.position_not_found)
    accrued ← accrue_position_fees p position tick_lower tick_upper p.slot0.tick
    ok (accrued.tokens_owed_0, accrued.tokens_owed_1)

  -- The position after a collection; one that is empty then is removed.
  unfoldable pub collected : Address → ℤ → ℤ → PositionData → ℕ → ℕ → Pool → Pool
  collected owner tick_lower tick_upper position amount0 amount1 p =
      let left : PositionData = record position {
        tokens_owed_0 = position.tokens_owed_0 - amount0;
        tokens_owed_1 = position.tokens_owed_1 - amount1;
      } in
      if position.liquidity == 0
        && position.tokens_owed_0 - amount0 == 0
        && position.tokens_owed_1 - amount1 == 0
      then remove_user_range_if_empty owner tick_lower tick_upper
          (put_position owner tick_lower tick_upper none p)
      else put_position owner tick_lower tick_upper (some left) p

  -- The loop of `claim_all_position_fees`: the fees of each position that is stored are taken.
  unfoldable pub collect_ranges :
      Address → ℤ → List PositionRange → ℕ × ℕ → Pool → Result ((ℕ × ℕ) × Pool)
  collect_ranges owner tick_current [] totals p = ok (totals, p)
  collect_ranges owner tick_current (range ∷ ranges) totals p =
      elim (p.positions owner range.tick_lower range.tick_upper) [
        | none ↦ collect_ranges owner tick_current ranges totals p
        | some position ↦ do
          accrued ← accrue_position_fees p position range.tick_lower range.tick_upper tick_current
          let owed0 = accrued.tokens_owed_0
          let owed1 = accrued.tokens_owed_1
          collect_ranges owner tick_current ranges
              (saturating_add totals.0 owed0, saturating_add totals.1 owed1)
              (collected owner range.tick_lower range.tick_upper accrued owed0 owed1 p)
      ]

  module _ {S : Type 0} (o : Outside S) (update_plane : Pool → S → Result S) where
    unfoldable pub rewards_checkpoint_user : Pool → Address → S → Result S
    rewards_checkpoint_user p user s =
        checkpoint_before o user p.total_weighted_liquidity (p.users user).weighted_liquidity s

    unfoldable pub rewards_refresh_working_balance : Pool → Address → S → Result S
    rewards_refresh_working_balance p user s =
        let weighted = (p.users user).weighted_liquidity in
        checkpoint_after o user weighted p.total_weighted_liquidity p.total_weighted_liquidity
          weighted s

    -- The transfers of a deposit: all that was given, and what is not needed back.
    unfoldable pub take_deposit : Env → Pool → Address → ℕ × ℕ → ℕ × ℕ → S → Result S
    take_deposit e p sender desired amounts s = do
      s₁ ← send o p.token0 sender e.current_contract desired.0 s
      s₂ ← send o p.token1 sender e.current_contract desired.1 s₁
      refund0 ← sub_checked desired.0 amounts.0
      refund1 ← sub_checked desired.1 amounts.1
      s₃ ← send o p.token0 e.current_contract sender refund0 s₂
      send o p.token1 e.current_contract sender refund1 s₃

    unfoldable pub deposit_position :
        Env → Pool × S → Address → ℤ → ℤ → List ℕ → ℕ → Result (((ℕ × ℕ) × ℕ) × (Pool × S))
    deposit_position e (p₀, s) sender tick_lower tick_upper desired_amounts min_liquidity = do
      require_auth e sender
      panic_if p₀.is_killed_deposit (concentrated ConcentratedPoolError.deposit_killed)
      desired ← two desired_amounts
      panic_if (desired.0 == 0 && desired.1 == 0) (validation ValidationError.zero_amount)
      check_ticks_internal p₀ tick_lower tick_upper
      full ← is_full_range p₀ tick_lower tick_upper
      slot ← slot_for_deposit p₀ tick_lower tick_upper desired
      let p = recompute_user_weighted_liquidity sender (record p₀ { slot0 = slot })
      s₁ ← rewards_checkpoint_user p sender s
      liquidity ← max_liquidity_for_amounts_at_slot slot tick_lower tick_upper desired.0 desired.1
      panic_if (leb (2 ^ 127) liquidity)
          (concentrated ConcentratedPoolError.liquidity_amount_too_large)
      panic_if (liquidity == 0 || ltb liquidity min_liquidity)
          (validation ValidationError.out_min_not_satisfied)
      amounts ← deposit_amounts slot tick_lower tick_upper liquidity desired
      s₂ ← take_deposit e p sender desired amounts s₁
      opened ← open_position sender tick_lower tick_upper liquidity amounts p
      counted ← add_liquidity tick_lower tick_upper full liquidity opened
      raw ← update_user_raw_liquidity sender (pos liquidity) counted
      let weighted = recompute_user_weighted_liquidity sender raw
      s₃ ← rewards_refresh_working_balance weighted sender s₂
      s₄ ← update_plane weighted s₃
      ok ((amounts, liquidity), (weighted, s₄))

    -- What the pool pays leaves its reserves.
    unfoldable pub pay : Env → Address → ℕ × ℕ → Pool × S → Result (Pool × S)
    pay e owner amounts (p, s) = do
      s₁ ← send o p.token0 e.current_contract owner amounts.0 s
      s₂ ← send o p.token1 e.current_contract owner amounts.1 s₁
      reserve0 ← sub_checked p.reserve0 amounts.0
      reserve1 ← sub_checked p.reserve1 amounts.1
      let paid : Pool = record p { reserve0 = reserve0; reserve1 = reserve1 }
      s₃ ← update_plane paid s₂
      ok (paid, s₃)

    unfoldable pub withdraw_position :
        Env → Pool × S → Address → ℤ → ℤ → ℕ → List ℕ → Result ((ℕ × ℕ) × (Pool × S))
    withdraw_position e (p₀, s) owner tick_lower tick_upper amount min_amounts = do
      require_auth e owner
      panic_if (amount == 0) (validation ValidationError.zero_amount)
      panic_if (leb (2 ^ 127) amount)
          (concentrated ConcentratedPoolError.liquidity_amount_too_large)
      least ← two min_amounts
      check_ticks_internal p₀ tick_lower tick_upper
      full ← is_full_range p₀ tick_lower tick_upper
      let p = recompute_user_weighted_liquidity owner p₀
      s₁ ← rewards_checkpoint_user p owner s
      position ←
          or_panic (p.positions owner tick_lower tick_upper)
            (concentrated ConcentratedPoolError.position_not_found)
      withdrawal ← withdrawal_of p tick_lower tick_upper position amount
      let totals = withdrawal.1
      panic_if (ltb totals.0 least.0 || ltb totals.1 least.1)
          (validation ValidationError.out_min_not_satisfied)
      panic_if (ltb p.reserve0 totals.0) (validation ValidationError.insufficient_balance)
      panic_if (ltb p.reserve1 totals.1) (validation ValidationError.insufficient_balance)
      closed ← close_position owner tick_lower tick_upper full withdrawal.0 amount p
      s₂ ← rewards_refresh_working_balance closed owner s₁
      done ← pay e owner totals (closed, s₂)
      ok (totals, done)

    unfoldable pub collect_internal :
        Env → Pool × S → Address → ℤ → ℤ → List ℕ → Bool → Result ((ℕ × ℕ) × (Pool × S))
    collect_internal e (p, s) owner tick_lower tick_upper requested require_owner_auth = do
      elim require_owner_auth [ true ↦ require_auth e owner | false ↦ ok tt ]
      wanted ← two requested
      position ←
          or_panic (p.positions owner tick_lower tick_upper)
            (concentrated ConcentratedPoolError.position_not_found)
      accrued ← accrue_position_fees p position tick_lower tick_upper p.slot0.tick
      let amounts : ℕ × ℕ =
          (at_most accrued.tokens_owed_0 wanted.0, at_most accrued.tokens_owed_1 wanted.1)
      panic_if (ltb p.reserve0 amounts.0 || ltb p.reserve1 amounts.1)
          (validation ValidationError.insufficient_balance)
      done ←
          pay e owner amounts
            (collected owner tick_lower tick_upper accrued amounts.0 amounts.1 p, s)
      ok (amounts, done)

    unfoldable pub claim_position_fees :
        Env → Pool × S → Address → ℤ → ℤ → Result ((ℕ × ℕ) × (Pool × S))
    claim_position_fees e (p, s) owner tick_lower tick_upper =
        collect_internal e (p, s) owner tick_lower tick_upper ((2 ^ 128 - 1) ∷ (2 ^ 128 - 1) ∷ [])
          true

    unfoldable pub claim_all_position_fees :
        Env → Pool × S → Address → Result ((ℕ × ℕ) × (Pool × S))
    claim_all_position_fees e (p, s) owner = do
      require_auth e owner
      elim (p.users owner).positions [
        | [] ↦ ok ((0, 0), (p, s))
        | _ ↦ do
          taken ← collect_ranges owner p.slot0.tick (p.users owner).positions (0, 0) p
          panic_if (ltb taken.1.reserve0 taken.0.0)
              (validation ValidationError.insufficient_balance)
          panic_if (ltb taken.1.reserve1 taken.0.1)
              (validation ValidationError.insufficient_balance)
          done ← pay e owner taken.0 (taken.1, s)
          ok (taken.0, done)
      ]

    unfoldable pub deposit :
        Env → Pool × S → Address → List ℕ → ℕ → Result (((ℕ × ℕ) × ℕ) × (Pool × S))
    deposit e (p, s) user desired_amounts min_shares = do
      range ← full_range_ticks p
      deposit_position e (p, s) user range.0 range.1 desired_amounts min_shares

    unfoldable pub withdraw : Env → Pool × S → Address → ℕ → List ℕ → Result ((ℕ × ℕ) × (Pool × S))
    withdraw e (p, s) user share_amount min_amounts = do
      least ← two min_amounts
      range ← full_range_ticks p
      withdraw_position e (p, s) user range.0 range.1 share_amount min_amounts
