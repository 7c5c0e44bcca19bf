-- ===== src/Concentrated/Step/Input.antt =====
-- liquidity_pool_concentrated/src/contract/internal.rs: a step with an exact input.
use native.Mathlib.Nat.{mul-le-mul}
use soroban_amm.Prelude.{
  ℕ, ◌+◌, ◌-◌, ◌*◌, ◌/◌, ◌^◌, ◌≤◌, ◌<◌, ◌≡◌, ◌≢◌, refl, Bool, true, false, arith, ◌==◌, inl, inr,
  Bool-cases,
}
use soroban_amm.Prelude.Arith.{ceil-le_of, mul-le_of_le-div, div-le_of}
use soroban_amm.Host.{Math, ok, sub_checked}
use soroban_amm.Concentrated.Math.{mul_div_u128, to_u128, saturated}
use soroban_amm.Concentrated.Step.{
  SwapStep, fee_denominator, reaches, clamped, next_price_in, price_towards_in, fee_in, step_in,
  compute_swap_step,
}
use soroban_amm.Concentrated.Step.Amounts.{
  IsAhead, amount_in_between, amount_out_between, moved, in-le, reaches_le, saturated_lem,
  moved_lem, clamped_lem, amount_in_lem, amount_out_lem, next_in_lem,
}

fee_keeps :
    (amount remaining c : ℕ) → c ≤ 10000 → amount * 10000 ≤ remaining * c → amount ≤ remaining
fee_keeps amount remaining c small h =
    let le : remaining * c ≤ remaining * 10000 = mul-le-mul {n₂ = remaining} (omega arith) small in
    omega arith

fee_covered :
    (amount remaining fee c rest : ℕ)
    → remaining ≡ amount + rest
    → 10000 ≡ fee + c
    → amount * 10000 ≤ remaining * c
    → amount * fee ≤ rest * c
fee_covered amount remaining fee c rest e f h =
    let h' : amount * (fee + c) ≤ (amount + rest) * c = rw (← f, ← e) h in omega arith

-- The fee on an amount that reaches the target, and that amount, are at most the whole.
fee-le :
    (amount remaining fee : ℕ)
    → fee < fee_denominator
    → amount ≤ remaining * (fee_denominator - fee) / fee_denominator
    → (amount * fee + (fee_denominator - fee - 1)) / (fee_denominator - fee) + amount ≤ remaining
fee-le amount remaining fee lt h =
    let c = fee_denominator - fee in
    let low : amount * fee_denominator ≤ remaining * c =
      mul-le_of_le-div (remaining * c) fee_denominator amount (omega arith) h in
    let kept : amount ≤ remaining = fee_keeps amount remaining c (omega arith) low in
    let cover : amount * fee ≤ (remaining - amount) * c =
      fee_covered amount remaining fee c (remaining - amount) (omega arith) (omega arith) low in
    omega (arith, ceil-le_of (amount * fee) c (remaining - amount) (omega arith) cover)

IsAhead-self : (zero_for_one : Bool) (p : ℕ) → IsAhead zero_for_one p p
IsAhead-self true p = omega arith
IsAhead-self false p = omega arith

IsAhead-positive :
    (zero_for_one : Bool) (p q t : ℕ)
    → 0 < p
    → 0 < t
    → IsAhead zero_for_one p q
    → IsAhead zero_for_one q t
    → 0 < q
IsAhead-positive true p q t posp post h k = omega arith
IsAhead-positive false p q t posp post h k = omega arith

IsAhead-small :
    (zero_for_one : Bool) (p q t : ℕ)
    → p < 2 ^ 160
    → t < 2 ^ 160
    → IsAhead zero_for_one p q
    → IsAhead zero_for_one q t
    → q < 2 ^ 160
IsAhead-small true p q t posp post h k = omega arith
IsAhead-small false p q t posp post h k = omega arith

module _ ⦃m : Math⦄ where
  next_price_in_lem :
      (zero_for_one : Bool) (p t liquidity amount : ℕ)
      → 0 < p
      → p < 2 ^ 160
      → 0 < t
      → t < 2 ^ 160
      → IsAhead zero_for_one p t
      → 0 < liquidity
      → liquidity < 2 ^ 128
      → amount < 2 ^ 128
      → liquidity * 2 ^ 96 + amount * p < 2 ^ 256
      → (q : ℕ) × (next_price_in zero_for_one p t liquidity amount ≡ ok q)
        × IsAhead zero_for_one p q
        × IsAhead zero_for_one q t
        × (amount_in_between true zero_for_one p q liquidity ≤ amount)
  unfolding next_price_in price_towards_in
  next_price_in_lem zero_for_one p t liquidity amount posp small post small' ahead posl fits fits'
        room =
      let (_, tried) = amount_in_lem zero_for_one p t liquidity post small small' ahead posl fits in
      let target = amount_in_between true zero_for_one p t liquidity in
      elim (Bool-cases (reaches (to_u128 target) amount)) [
        | inl reached ↦
            let run : next_price_in zero_for_one p t liquidity amount ≡ ok t =
              rw (next_price_in, tried, price_towards_in, reached) refl in
            (t, run, ahead, IsAhead-self zero_for_one t, reaches_le target amount reached)
        | inr missed ↦
            let computed = moved zero_for_one p liquidity amount in
            let q = clamped zero_for_one computed t in
            let (after, before, short) =
              clamped_lem zero_for_one p computed t (moved_lem zero_for_one p liquidity amount posl)
                ahead in
            let price =
              next_in_lem zero_for_one p liquidity amount posp small posl fits fits' room in
            let run : next_price_in zero_for_one p t liquidity amount ≡ ok q =
              rw (next_price_in, tried, price_towards_in, missed, price) refl in
            let posq = IsAhead-positive zero_for_one p q t posp post after before in
            (
              q,
              run,
              after,
              before,
              in-le zero_for_one p q liquidity amount posp posq posl after short,
            )
      ]

less_le : (remaining c : ℕ) → c ≤ 10000 → remaining * c / 10000 ≤ remaining
less_le remaining c small =
    div-le_of (remaining * c) 10000 remaining (omega arith)
      (mul-le-mul {n₂ = remaining} {m₂ = 10000} (omega arith) small)

room_mono :
    (n p amount remaining : ℕ)
    → amount ≤ remaining
    → n + remaining * p < 2 ^ 256
    → n + amount * p < 2 ^ 256
room_mono n p amount remaining le h =
    let mono : amount * p ≤ remaining * p = mul-le-mul {n₂ = remaining} {m₂ = p} le (omega arith) in
    omega arith

module _ ⦃m : Math⦄ where
  less_fee_lem :
      (remaining fee : ℕ)
      → remaining < 2 ^ 128
      → mul_div_u128 remaining (fee_denominator - fee) fee_denominator false
        ≡ ok (remaining * (fee_denominator - fee) / fee_denominator)
  unfolding mul_div_u128
  less_fee_lem remaining fee small = ground (
    arith,
    m.fixed_mul_floor_lem remaining (fee_denominator - fee) fee_denominator,
    less_le remaining (fee_denominator - fee) (omega arith),
  )

  -- The fee is computed, and with the amount is at most the whole; it is the whole short of the target.
  fee_in_lem :
      (reached : Bool) (amount remaining fee : ℕ)
      → fee < fee_denominator
      → remaining < 2 ^ 128
      → amount ≤ remaining * (fee_denominator - fee) / fee_denominator
      → (f : ℕ) × (fee_in reached remaining amount fee (fee_denominator - fee) ≡ ok f)
        × (amount + f ≤ remaining)
        × (reached ≡ false → amount + f ≡ remaining)
  unfolding fee_in mul_div_u128
  fee_in_lem true amount remaining fee lt small h =
      let c = fee_denominator - fee in
      let le = fee-le amount remaining fee lt h in
      (
        (amount * fee + (c - 1)) / c,
        ground (arith, m.fixed_mul_ceil_lem amount fee c),
        omega arith,
        λ absurd. ground arith,
      )
  fee_in_lem false amount remaining fee lt small h =
      let le = less_le remaining (fee_denominator - fee) (omega arith) in
      (remaining - amount, refl, omega arith, λ e. omega arith)

  -- Between two positive prices of at most 160 bits, the second ahead of the first in the direction
  -- of the swap, at a positive 128-bit liquidity, a fee below the denominator and a 128-bit amount
  -- small enough that `liquidity * 2 ^ 96 + amount * price` has 256 bits: a step with an exact
  -- input succeeds, stops between the two prices, takes no more than the amount that remains, its
  -- fee included, and takes all of it unless it stops at the second price.
  pub compute_swap_step-exact_in :
      (zero_for_one : Bool) (current target liquidity remaining fee : ℕ)
      → 0 < current
      → current < 2 ^ 160
      → 0 < target
      → target < 2 ^ 160
      → IsAhead zero_for_one current target
      → 0 < liquidity
      → liquidity < 2 ^ 128
      → fee < fee_denominator
      → remaining < 2 ^ 128
      → liquidity * 2 ^ 96 + remaining * current < 2 ^ 256
      → (step : SwapStep) × (compute_swap_step current target liquidity remaining fee zero_for_one
            true
          ≡ ok step)
        × IsAhead zero_for_one current step.sqrt_next
        × IsAhead zero_for_one step.sqrt_next target
        × (step.amount_in + step.fee_amount ≤ remaining)
        × (step.sqrt_next ≢ target → step.amount_in + step.fee_amount ≡ remaining)
  unfolding compute_swap_step step_in
  compute_swap_step-exact_in zero_for_one current target liquidity remaining fee pos small post
        small' ahead posl fits lt fits' room =
      let c = fee_denominator - fee in
      let less = remaining * c / fee_denominator in
      let le = less_le remaining c (omega arith) in
      let complement : sub_checked fee_denominator fee ≡ ok c = ground arith in
      let less_run = less_fee_lem remaining fee fits' in
      let (q, price, after, before, cost) =
        next_price_in_lem zero_for_one current target liquidity less pos small post small' ahead
          posl fits (omega arith) (room_mono (liquidity * 2 ^ 96) current less remaining le room) in
      let posq = IsAhead-positive zero_for_one current q target pos post after before in
      let smallq = IsAhead-small zero_for_one current q target small small' after before in
      let a = amount_in_between true zero_for_one current q liquidity in
      let o = saturated (amount_out_between zero_for_one current q liquidity) in
      let (input, _) =
        amount_in_lem zero_for_one current q liquidity posq small smallq after posl fits in
      let (output, _) =
        amount_out_lem zero_for_one current q liquidity pos small smallq after posl fits in
      let exact = saturated_lem a (omega arith) in
      let (f, fee_run, sum, whole) = fee_in_lem (q == target) a remaining fee lt fits' cost in
      let step : SwapStep = record {
        sqrt_next = q;
        amount_in = a;
        amount_out = o;
        fee_amount = f;
      } in
      let nonzero : liquidity == 0 ≡ false = ground arith in
      let run : compute_swap_step current target liquidity remaining fee zero_for_one true
          ≡ ok step =
        rw
          (
            compute_swap_step, nonzero, step_in, complement, less_run, price, input, output, exact,
            fee_run,
          )
          refl in
      (step, run, after, before, sum, λ apart. whole (ground arith))
