-- ===== src/Concentrated/Swap/Limit.antt =====
-- liquidity_pool_concentrated/src/contract/internal.rs: the price limit of a swap.
use soroban_amm.Prelude.{
  ℕ, ◌≤◌, ◌≡◌, Bool, true, false, arith, ap, ◌==◌, inl, inr, Bool-cases, subst, Option,
  if◌then◌else◌,
}
use soroban_amm.Host.{Math, ok, ◌>>=◌, sub_checked}
use soroban_amm.Host.Inversion.{bind-ok, ok-injective}
use soroban_amm.Host.Integer.{ℤ}
use soroban_amm.Concentrated.State.{Slot0, Pool}
use soroban_amm.Concentrated.Math.{
  get_next_sqrt_price_from_input, get_next_sqrt_price_from_output, mul_div_u128,
}
use soroban_amm.Concentrated.Step.{
  SwapStep, reaches, clamped, compute_swap_step, step_in, step_out, next_price_in, next_price_out,
  try_amount_in_to, try_amount_out_to, fee_in, amount_in_to, amount_out_to, fee_denominator,
  price_towards_in, price_towards_out,
}
use soroban_amm.Concentrated.Swap.{
  Order, SwapState, swap_turn, step_to, split_fee, take_step, move_price, cross, with_slot,
  target_of, validate_price_limit, order_of, start_swap, note_liquidity, tick_past,
}
use soroban_amm.Concentrated.Search.{find_initialized_tick_in_word}
use soroban_amm.Concentrated.Liquidity.{magnitude}
use soroban_amm.Concentrated.Math.Ratios.{sqrt_ratio_at_tick, tick_at_sqrt_ratio}

abbrev price_of : SwapState → ℕ
price_of s = s.slot.sqrt_price_x96

-- A price is not beyond a bound in the direction of a swap.
abbrev pub IsWithin : Bool → ℕ → ℕ → Type 0
IsWithin true bound price = bound ≤ price
IsWithin false bound price = price ≤ bound

module _ ⦃m : Math⦄ where
  -- The states that the loop of a swap goes through, however many turns it takes.
  pub data Turns (o : Order) (s : SwapState) : SwapState → Type 0 where
    start : Turns o s s
    turn : {s' s'' : SwapState} → Turns o s s' → swap_turn o s' ≡ ok s'' → Turns o s s''

  IsWithin-clamped :
      (zero_for_one : Bool) (computed target : ℕ)
      → IsWithin zero_for_one target (clamped zero_for_one computed target)
  unfolding clamped
  IsWithin-clamped true computed target = ground arith
  IsWithin-clamped false computed target = ground arith

  IsWithin-self : (zero_for_one : Bool) (price : ℕ) → IsWithin zero_for_one price price
  IsWithin-self true price = omega arith
  IsWithin-self false price = omega arith

  IsWithin-trans :
      (zero_for_one : Bool) (a b c : ℕ)
      → IsWithin zero_for_one a b
      → IsWithin zero_for_one b c
      → IsWithin zero_for_one a c
  IsWithin-trans true a b c h k = omega arith
  IsWithin-trans false a b c h k = omega arith

  target_of-IsWithin :
      (zero_for_one : Bool) (price limit : ℕ)
      → IsWithin zero_for_one limit (target_of zero_for_one price limit)
  unfolding target_of
  target_of-IsWithin true price limit = ground arith
  target_of-IsWithin false price limit = ground arith

  towards_in-IsWithin :
      (zero_for_one : Bool) (current target liquidity remaining : ℕ) (o : Option ℕ) (next : ℕ)
      → price_towards_in zero_for_one current target liquidity remaining o ≡ ok next
      → IsWithin zero_for_one target next
  unfolding price_towards_in
  towards_in-IsWithin zero_for_one current target liquidity remaining o next h =
      elim (Bool-cases (reaches o remaining)) [
        | inl e ↦
            let run : ok target ≡ ok next = (rw (price_towards_in, e) at h) in
            subst (IsWithin zero_for_one target) (ok-injective run)
              (IsWithin-self zero_for_one target)
        | inr e ↦
            let run : (get_next_sqrt_price_from_input current liquidity remaining zero_for_one
                  >>= λ computed. ok (clamped zero_for_one computed target))
                ≡ ok next =
              (rw (price_towards_in, e) at h) in
            let (computed, _, result) =
              bind-ok (get_next_sqrt_price_from_input current liquidity remaining zero_for_one)
                (λ computed. ok (clamped zero_for_one computed target)) next run in
            subst (IsWithin zero_for_one target) (ok-injective result)
              (IsWithin-clamped zero_for_one computed target)
      ]

  towards_out-IsWithin :
      (zero_for_one : Bool) (current target liquidity remaining : ℕ) (o : Option ℕ) (next : ℕ)
      → price_towards_out zero_for_one current target liquidity remaining o ≡ ok next
      → IsWithin zero_for_one target next
  unfolding price_towards_out
  towards_out-IsWithin zero_for_one current target liquidity remaining o next h =
      elim (Bool-cases (reaches o remaining)) [
        | inl e ↦
            let run : ok target ≡ ok next = (rw (price_towards_out, e) at h) in
            subst (IsWithin zero_for_one target) (ok-injective run)
              (IsWithin-self zero_for_one target)
        | inr e ↦
            let run : (get_next_sqrt_price_from_output current liquidity remaining zero_for_one
                  >>= λ computed. ok (clamped zero_for_one computed target))
                ≡ ok next =
              (rw (price_towards_out, e) at h) in
            let (computed, _, result) =
              bind-ok (get_next_sqrt_price_from_output current liquidity remaining zero_for_one)
                (λ computed. ok (clamped zero_for_one computed target)) next run in
            subst (IsWithin zero_for_one target) (ok-injective result)
              (IsWithin-clamped zero_for_one computed target)
      ]

  -- A step stops within its target, whatever it computes.
  step_in-IsWithin :
      (zero_for_one : Bool) (current target liquidity remaining fee : ℕ) (step : SwapStep)
      → step_in zero_for_one current target liquidity remaining fee ≡ ok step
      → IsWithin zero_for_one target step.sqrt_next
  unfolding step_in next_price_in
  step_in-IsWithin zero_for_one current target liquidity remaining fee step h =
      let (c, _, h₁) = bind-ok (sub_checked fee_denominator fee) _ step h in
      let (less, _, h₂) = bind-ok (mul_div_u128 remaining c fee_denominator false) _ step h₁ in
      let (next, price, h₃) =
        bind-ok (next_price_in zero_for_one current target liquidity less) _ step h₂ in
      let (a, _, h₄) = bind-ok (amount_in_to zero_for_one current next liquidity) _ step h₃ in
      let (o, _, h₅) = bind-ok (amount_out_to zero_for_one current next liquidity) _ step h₄ in
      let (f, _, h₆) = bind-ok (fee_in (next == target) remaining a fee c) _ step h₅ in
      let same : next ≡ step.sqrt_next = ap (λ (t : SwapStep). t.sqrt_next) (ok-injective h₆) in
      let (tried, _, rest) =
        bind-ok (try_amount_in_to zero_for_one current target liquidity) _ next price in
      subst (IsWithin zero_for_one target) same
        (towards_in-IsWithin zero_for_one current target liquidity less tried next rest)

  step_out-IsWithin :
      (zero_for_one : Bool) (current target liquidity remaining fee : ℕ) (step : SwapStep)
      → step_out zero_for_one current target liquidity remaining fee ≡ ok step
      → IsWithin zero_for_one target step.sqrt_next
  unfolding step_out next_price_out
  step_out-IsWithin zero_for_one current target liquidity remaining fee step h =
      let (c, _, h₁) = bind-ok (sub_checked fee_denominator fee) _ step h in
      let (next, price, h₂) =
        bind-ok (next_price_out zero_for_one current target liquidity remaining) _ step h₁ in
      let (a, _, h₃) = bind-ok (amount_in_to zero_for_one current next liquidity) _ step h₂ in
      let (o, _, h₄) = bind-ok (amount_out_to zero_for_one current next liquidity) _ step h₃ in
      let (f, _, h₅) = bind-ok (mul_div_u128 a fee c true) _ step h₄ in
      let same : next ≡ step.sqrt_next = ap (λ (t : SwapStep). t.sqrt_next) (ok-injective h₅) in
      let (tried, _, rest) =
        bind-ok (try_amount_out_to zero_for_one current target liquidity) _ next price in
      subst (IsWithin zero_for_one target) same
        (towards_out-IsWithin zero_for_one current target liquidity remaining tried next rest)

  step-IsWithin :
      (exact_input zero_for_one : Bool) (current target liquidity remaining fee : ℕ)
      (step : SwapStep)
      → (if exact_input
          then step_in zero_for_one current target liquidity remaining fee
          else step_out zero_for_one current target liquidity remaining fee)
        ≡ ok step
      → IsWithin zero_for_one target step.sqrt_next
  step-IsWithin true zero_for_one current target liquidity remaining fee step h =
      step_in-IsWithin zero_for_one current target liquidity remaining fee step h
  step-IsWithin false zero_for_one current target liquidity remaining fee step h =
      step_out-IsWithin zero_for_one current target liquidity remaining fee step h

  compute_swap_step-IsWithin :
      (current target liquidity remaining fee : ℕ) (zero_for_one exact_input : Bool)
      (step : SwapStep)
      → compute_swap_step current target liquidity remaining fee zero_for_one exact_input ≡ ok step
      → IsWithin zero_for_one target step.sqrt_next
  unfolding compute_swap_step
  compute_swap_step-IsWithin current target liquidity remaining fee zero_for_one exact_input step
        h =
      elim (Bool-cases (liquidity == 0)) [
        | inl e ↦
            let run : ok
                  (record { sqrt_next = target; amount_in = 0; amount_out = 0; fee_amount = 0 })
                ≡ ok step =
              (rw (compute_swap_step, e) at h) in
            subst (IsWithin zero_for_one target)
              (ap (λ (t : SwapStep). t.sqrt_next) (ok-injective run))
              (IsWithin-self zero_for_one target)
        | inr e ↦
            step-IsWithin exact_input zero_for_one current target liquidity remaining fee step
              (rw (compute_swap_step, e) at h)
      ]

  move_price-sqrt_price :
      (o : Order) (next_tick : ℤ) (initialized : Bool) (next_tick_price sqrt_next : ℕ)
      (s s' : SwapState)
      → move_price o next_tick initialized next_tick_price sqrt_next s ≡ ok s'
      → sqrt_next ≡ s'.slot.sqrt_price_x96
  unfolding move_price with_slot
  move_price-sqrt_price o next_tick initialized next_tick_price sqrt_next s s' h =
      elim (Bool-cases (sqrt_next == next_tick_price)) [
        | inl e ↦
            let run : (cross o next_tick initialized s >>= λ crossed.
            ok (with_slot sqrt_next (tick_past o.zero_for_one next_tick) crossed))
                ≡ ok s' =
              (rw (move_price, e) at h) in
            let (crossed, _, result) = bind-ok (cross o next_tick initialized s) _ s' run in
            ap price_of (ok-injective result)
        | inr e ↦ elim (Bool-cases (sqrt_next == s.slot.sqrt_price_x96)) [
          | inl e' ↦
              let run : ok (with_slot sqrt_next s.slot.tick s) ≡ ok s' =
                (rw (move_price, e, e') at h) in
              ap price_of (ok-injective run)
          | inr e' ↦
              let run : (tick_at_sqrt_ratio sqrt_next >>= λ tick. ok (with_slot sqrt_next tick s))
                  ≡ ok s' =
                (rw (move_price, e, e') at h) in
              let (tick, _, result) = bind-ok (tick_at_sqrt_ratio sqrt_next) _ s' run in
              ap price_of (ok-injective result)
        ]
      ]

  swap_turn-IsWithin :
      (o : Order) (s s' : SwapState)
      → swap_turn o s ≡ ok s'
      → IsWithin o.zero_for_one o.price_limit s'.slot.sqrt_price_x96
  unfolding swap_turn step_to
  swap_turn-IsWithin o s s' h =
      let (found, _, h₁) =
        bind-ok
          (find_initialized_tick_in_word s.pool s.chunks s.slot.tick s.pool.tick_spacing
            o.zero_for_one)
          _ s' h in
      let noted : SwapState = record (note_liquidity s) { chunks = found.1 } in
      let (price, _, h₂) = bind-ok (sqrt_ratio_at_tick found.0.0) _ s' h₁ in
      let target = target_of o.zero_for_one price o.price_limit in
      let (step, stepped, h₃) =
        bind-ok
          (compute_swap_step noted.slot.sqrt_price_x96 target noted.liquidity noted.amount_remaining
            noted.pool.fee o.zero_for_one o.exact_input)
          _ s' h₂ in
      let (split, _, h₄) = bind-ok (split_fee o step.fee_amount (take_step o step noted)) _ s' h₃ in
      let moved = move_price-sqrt_price o found.0.0 found.0.1 price step.sqrt_next split s' h₄ in
      subst (IsWithin o.zero_for_one o.price_limit) moved (
        IsWithin-trans o.zero_for_one o.price_limit target step.sqrt_next
          (target_of-IsWithin o.zero_for_one price o.price_limit)
          (compute_swap_step-IsWithin noted.slot.sqrt_price_x96 target noted.liquidity
            noted.amount_remaining noted.pool.fee o.zero_for_one o.exact_input step stepped))

  validate-IsWithin :
      (zero_for_one : Bool) (slot : Slot0) (given limit : ℕ)
      → validate_price_limit slot zero_for_one given ≡ ok limit
      → IsWithin zero_for_one limit slot.sqrt_price_x96
  unfolding validate_price_limit
  validate-IsWithin true slot given limit h = ground arith
  validate-IsWithin false slot given limit h = ground arith

  -- When `validate_price_limit` accepts a price limit, no state that the loop of the swap goes
  -- through has a price beyond that limit: the price does not fall below it when token 0 comes in,
  -- and does not rise above it when token 1 does; with an exact input or output, in a simulation too.
  pub swap_turns-price_limit :
      (p : Pool) (zero_for_one : Bool) (amount_specified : ℤ) (given limit : ℕ) (dry_run : Bool)
      (s : SwapState)
      → validate_price_limit p.slot0 zero_for_one given ≡ ok limit
      → Turns
          (order_of p zero_for_one amount_specified limit dry_run)
          (start_swap
            (order_of p zero_for_one amount_specified limit dry_run)
            (magnitude amount_specified)
            p)
          s
      → IsWithin zero_for_one limit s.slot.sqrt_price_x96
  unfolding order_of start_swap
  swap_turns-price_limit p zero_for_one amount_specified given limit dry_run s valid start =
      validate-IsWithin zero_for_one p.slot0 given limit valid
  swap_turns-price_limit p zero_for_one amount_specified given limit dry_run s valid
        (turn {s'} {s''} before run) =
      swap_turn-IsWithin (order_of p zero_for_one amount_specified limit dry_run) s' s'' run
