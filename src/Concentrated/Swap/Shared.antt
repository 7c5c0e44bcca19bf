-- ===== src/Concentrated/Swap/Shared.antt =====
-- liquidity_pool_concentrated/src/contract/internal.rs: the loop of a swap shares one cache of chunks.
use soroban_amm.Prelude.{ℕ, ◌≡◌, ◌-◌, subst, Bool, true, false, ◌==◌, inl, inr, Bool-cases}
use soroban_amm.Host.{Math, ok, ◌>>=◌}
use soroban_amm.Host.Inversion.{bind-ok, ok-injective}
use soroban_amm.Host.Integer.{ℤ}
use soroban_amm.Concentrated.State.{Pool}
use soroban_amm.Concentrated.Math.{mul_div_u128}
use soroban_amm.Concentrated.Math.Ratios.{sqrt_ratio_at_tick, tick_at_sqrt_ratio}
use soroban_amm.Concentrated.Step.{SwapStep, compute_swap_step, fee_denominator}
use soroban_amm.Concentrated.Search.{find_initialized_tick_in_word}
use soroban_amm.Concentrated.Fees.{cross_tick, add_fee_growth_global}
use soroban_amm.Concentrated.Fees.Uses.{Uses, opened, searched, grown, crossed}
use soroban_amm.Concentrated.Swap.{
  Order, SwapState, swap_turn, step_to, split_fee, take_step, move_price, net_at, cross, with_slot,
  target_of, start_swap, note_liquidity, tick_past, liquidity_past,
}
use soroban_amm.Concentrated.Swap.Limit.{Turns, start, turn}

module _ ⦃m : Math⦄ where
  -- The pool and the cache of a state of the loop were led to from the pool `p`.
  abbrev IsShared : Pool → SwapState → Type 0
  IsShared p s = Uses p s.pool s.chunks

  take_step-IsShared :
      (p : Pool) (o : Order) (step : SwapStep) (s : SwapState)
      → IsShared p s
      → IsShared p (take_step o step s)
  unfolding take_step
  take_step-IsShared p o step s shared = elim (Bool-cases o.exact_input) [
    | inl e ↦ rw (take_step, e) shared
    | inr e ↦ rw (take_step, e) shared
  ]

  split_fee-IsShared :
      (p : Pool) (o : Order) (fee_amount : ℕ) (s s' : SwapState)
      → o.dry_run ≡ false
      → IsShared p s
      → split_fee o fee_amount s ≡ ok s'
      → IsShared p s'
  unfolding split_fee
  split_fee-IsShared p o fee_amount s s' real shared h =
      let (cut, _, h₁) =
        bind-ok (mul_div_u128 fee_amount s.pool.protocol_fee_fraction fee_denominator false) _ s'
          (rw (split_fee, real) at h) in
      let (r, grow, h₂) =
        bind-ok (add_fee_growth_global o.zero_for_one (fee_amount - cut) s.liquidity s.pool) _ s'
          h₁ in
      subst (IsShared p) (ok-injective h₂)
        (grown o.zero_for_one (fee_amount - cut) s.liquidity r.0 shared grow)

  cross-IsShared :
      (p : Pool) (o : Order) (next_tick : ℤ) (initialized : Bool) (s s' : SwapState)
      → o.dry_run ≡ false
      → IsShared p s
      → cross o next_tick initialized s ≡ ok s'
      → IsShared p s'
  unfolding cross net_at
  cross-IsShared p o next_tick false s s' real shared h = subst (IsShared p) (ok-injective h) shared
  cross-IsShared p o next_tick true s s' real shared h =
      let (net, run, h₁) = bind-ok (net_at o s next_tick) _ s' h in
      let run' : cross_tick s.pool s.chunks next_tick ≡ ok net = (rw (net_at, real) at run) in
      let (liquidity, _, h₂) = bind-ok (liquidity_past o.zero_for_one s.liquidity net.0) _ s' h₁ in
      subst (IsShared p) (ok-injective h₂) (crossed next_tick net.0 shared run')

  move_price-IsShared :
      (p : Pool) (o : Order) (next_tick : ℤ) (initialized : Bool) (next_tick_price sqrt_next : ℕ)
      (s s' : SwapState)
      → o.dry_run ≡ false
      → IsShared p s
      → move_price o next_tick initialized next_tick_price sqrt_next s ≡ ok s'
      → IsShared p s'
  unfolding move_price with_slot
  move_price-IsShared p o next_tick initialized next_tick_price sqrt_next s s' real shared h =
      elim (Bool-cases (sqrt_next == next_tick_price)) [
        | inl e ↦
            let run : (cross o next_tick initialized s >>= λ done.
            ok (with_slot sqrt_next (tick_past o.zero_for_one next_tick) done))
                ≡ ok s' =
              (rw (move_price, e) at h) in
            let (done, before, result) = bind-ok (cross o next_tick initialized s) _ s' run in
            subst (IsShared p) (ok-injective result)
              (cross-IsShared p o next_tick initialized s done real shared before)
        | inr e ↦ elim (Bool-cases (sqrt_next == s.slot.sqrt_price_x96)) [
          | inl e' ↦
              let run : ok (with_slot sqrt_next s.slot.tick s) ≡ ok s' =
                (rw (move_price, e, e') at h) in
              subst (IsShared p) (ok-injective run) shared
          | inr e' ↦
              let run : (tick_at_sqrt_ratio sqrt_next >>= λ tick. ok (with_slot sqrt_next tick s))
                  ≡ ok s' =
                (rw (move_price, e, e') at h) in
              let (tick, _, result) = bind-ok (tick_at_sqrt_ratio sqrt_next) _ s' run in
              subst (IsShared p) (ok-injective result) shared
        ]
      ]

  swap_turn-IsShared :
      (p : Pool) (o : Order) (s s' : SwapState)
      → o.dry_run ≡ false
      → IsShared p s
      → swap_turn o s ≡ ok s'
      → IsShared p s'
  unfolding swap_turn step_to note_liquidity
  swap_turn-IsShared p o s s' real shared h =
      let (found, search, h₁) =
        bind-ok
          (find_initialized_tick_in_word s.pool s.chunks s.slot.tick s.pool.tick_spacing
            o.zero_for_one)
          _ s' h in
      let noted : SwapState = record (note_liquidity s) { chunks = found.1 } in
      let (price, _, h₂) = bind-ok (sqrt_ratio_at_tick found.0.0) _ s' h₁ in
      let (step, _, h₃) =
        bind-ok
          (compute_swap_step noted.slot.sqrt_price_x96
            (target_of o.zero_for_one price o.price_limit) noted.liquidity noted.amount_remaining
            noted.pool.fee o.zero_for_one o.exact_input)
          _ s' h₂ in
      let taken = take_step o step noted in
      let (split, fees, h₄) = bind-ok (split_fee o step.fee_amount taken) _ s' h₃ in
      let searching : IsShared p noted =
        searched s.slot.tick o.zero_for_one found.0 shared search in
      let paid =
        split_fee-IsShared p o step.fee_amount taken split real
          (take_step-IsShared p o step noted searching) fees in
      move_price-IsShared p o found.0.0 found.0.1 price step.sqrt_next split s' real paid h₄

  -- In a swap that is no simulation, the loop leads from the pool and an empty cache only to pools
  -- and caches of which `Uses` speaks.
  pub Turns-Uses :
      (p : Pool) (o : Order) (amount_specified : ℕ) (s : SwapState)
      → o.dry_run ≡ false
      → Turns o (start_swap o amount_specified p) s
      → Uses p s.pool s.chunks
  unfolding start_swap
  Turns-Uses p o amount_specified s real start = opened
  Turns-Uses p o amount_specified s real (turn {s'} {s''} before run) =
      swap_turn-IsShared p o s' s'' real (Turns-Uses p o amount_specified s' real before) run
