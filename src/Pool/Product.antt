-- ===== src/Pool/Product.antt =====
-- What a swap does to the reserves: exactly what was quoted, and the product never falls.
use native.Mathlib.Nat.{mul-le-mul, le_refl, le_trans, mul_comm}
use soroban_amm.Prelude.{
  ℕ, ◌+◌, ◌-◌, ◌*◌, ◌/◌, ◌≤◌, ◌<◌, ◌≡◌, ◌⊎◌, inl, inr, arith, ◌==◌, if◌then◌else◌, ltb,
}
use soroban_amm.Host.{Address, Env, Math, ok}
use soroban_amm.Host.Integer.{as_i128}
use soroban_amm.Pool.Formulas.{fee_multiplier, get_amount_out, get_amount_out_strict_receive}
use soroban_amm.Pool.State.{Pool, Outside, sync_reserves}
use soroban_amm.Pool.Swap.{
  check_indices, reserve_at, token_at, take_in, pay_out, swap, swap_strict_receive,
}
use soroban_amm.Pool.Quotes.{Keeps, get_amount_out-IsBest, strict_receive-IsLeast}

-- `n` of token `i` came in, `out` of the other token went out, and `fee` of the input was set aside
-- for the protocol.
abbrev pub Settled : Pool → ℕ → ℕ → ℕ → ℕ → Pool → Type 0
Settled p j n out fee p' =
    if j == 0
    then (out ≤ p.reserve_a)
      × (p'.reserve_a ≡ p.reserve_a - out)
      × (p'.reserve_b + fee ≡ p.reserve_b + n)
      × (p'.protocol_fee_a ≡ p.protocol_fee_a)
      × (p'.protocol_fee_b ≡ p.protocol_fee_b + fee)
    else (out ≤ p.reserve_b)
      × (p'.reserve_b ≡ p.reserve_b - out)
      × (p'.reserve_a + fee ≡ p.reserve_a + n)
      × (p'.protocol_fee_b ≡ p.protocol_fee_b)
      × (p'.protocol_fee_a ≡ p.protocol_fee_a + fee)

pub check_indices-eq-ok :
    (i j : ℕ) → check_indices i j ≡ ok tt → ((i ≡ 0) × (j ≡ 1)) ⊎ ((i ≡ 1) × (j ≡ 0))
unfolding check_indices
check_indices-eq-ok i j h = ground arith

grows :
    (rs rb sell n fee part out : ℕ)
    → part ≤ fee
    → fee ≤ n
    → sell + part ≡ rs + n
    → Keeps rs rb (n - fee) out
    → rs * rb ≤ sell * (rb - out)
grows rs rb sell n fee part out le whole e keep =
    let more : rs + (n - fee) ≤ sell = omega arith in
    le_trans keep (mul-le-mul more (le_refl (rb - out)))

module _ ⦃m : Math⦄ {S : Type 0} (o : Outside S) where
  -- The parts of a swap that succeeded.
  pub swap-eq-ok :
      (e : Env) (p₀ p' : Pool) (s s' : S) (user : Address) (i j n least out : ℕ)
      → swap o e (p₀, s) user i j n least ≡ ok (out, (p', s'))
      → (p : Pool) × (sync_reserves o e p₀ s ≡ ok p)
        × (quote : ℕ × ℕ) × (get_amount_out p.fee_fraction n (reserve_at p i) (reserve_at p j)
            ≡ ok quote)
        × (s₁ : S) × (o.transfer (token_at p i) user e.current_contract (as_i128 n) s ≡ ok s₁)
        × (new : ℕ × ℕ) × (take_in p i j n quote.0 ≡ ok new)
        × (pay_out o e p user j new quote.0 (quote.1 * p.protocol_fee_fraction / fee_multiplier) s₁
            ≡ ok (p', s'))
        × (check_indices i j ≡ ok tt)
        × (quote.1 * p.protocol_fee_fraction / fee_multiplier ≤ quote.1)
        × (0 < n)
        × (least ≤ out)
        × (quote.0 ≡ out)
  unfolding swap
  swap-eq-ok e p₀ p' s s' user i j n least out h = ground arith

  take_in-eq-ok :
      (p : Pool) (i j n out : ℕ) {new : ℕ × ℕ}
      → take_in p i j n out ≡ ok new
      → (new.0 ≡ (if i == 0 then p.reserve_a + n else p.reserve_a))
        × (new.1 ≡ (if i == 0 then p.reserve_b else p.reserve_b + n))
  unfolding take_in
  take_in-eq-ok p i j n out h = (ground arith, ground arith)

  pub settle-Settled :
      (e : Env) (p p' : Pool) (s s' : S) (user : Address) (i j n out fee : ℕ) (new : ℕ × ℕ)
      → check_indices i j ≡ ok tt
      → take_in p i j n out ≡ ok new
      → pay_out o e p user j new out fee s ≡ ok (p', s')
      → Settled p j n out fee p'
  unfolding pay_out
  settle-Settled e p p' s s' user i j n out fee new idx taken paid =
      let t = take_in-eq-ok p i j n out taken in
      elim (check_indices-eq-ok i j idx) [
        | inl (ei, ej) ↦ ground arith
        | inr (ei, ej) ↦ ground arith
      ]

  Settled-product :
      (p p' : Pool) (i j n out fee protocol_fee : ℕ)
      → check_indices i j ≡ ok tt
      → protocol_fee ≤ fee
      → fee ≤ n
      → Keeps (reserve_at p i) (reserve_at p j) (n - fee) out
      → Settled p j n out protocol_fee p'
      → p.reserve_a * p.reserve_b ≤ p'.reserve_a * p'.reserve_b
  Settled-product p p' i j n out fee protocol_fee idx part whole keep done =
      elim (check_indices-eq-ok i j idx) [
        | inl (ei, ej) ↦
            let keep' : Keeps p.reserve_a p.reserve_b (n - fee) out = rw (ei, ej) at keep in
            let done' : Settled p 1 n out protocol_fee p' = rw ej at done in
            let e : p'.reserve_b ≡ p.reserve_b - out = done'.1 in
            rw e (
              grows p.reserve_a p.reserve_b p'.reserve_a n fee protocol_fee out part whole done'.2
                keep')
        | inr (ei, ej) ↦
            let keep' : Keeps p.reserve_b p.reserve_a (n - fee) out = rw (ei, ej) at keep in
            let done' : Settled p 0 n out protocol_fee p' = rw ej at done in
            let e : p'.reserve_a ≡ p.reserve_a - out = done'.1 in
            let g =
              grows p.reserve_b p.reserve_a p'.reserve_b n fee protocol_fee out part whole done'.2
                keep' in
            rw (e, mul_comm p.reserve_a p.reserve_b, mul_comm (p.reserve_a - out) p'.reserve_b) g
      ]

  -- A swap that succeeds pays out no less than asked; it adds the input to one reserve, less the
  -- fee that it sets aside for the protocol, and takes the output from the other; and the product
  -- of the reserves (as they stood after the sync) does not fall.
  pub swap-product :
      (e : Env) (p₀ p' : Pool) (s s' : S) (user : Address) (i j n least out : ℕ)
      → swap o e (p₀, s) user i j n least ≡ ok (out, (p', s'))
      → (p : Pool) × (sync_reserves o e p₀ s ≡ ok p)
        × (least ≤ out)
        × ((protocol_fee : ℕ) × Settled p j n out protocol_fee p')
        × (p.reserve_a * p.reserve_b ≤ p'.reserve_a * p'.reserve_b)
  swap-product e p₀ p' s s' user i j n least out h =
      let (p, sync, quote, quoted, s₁, _, new, taken, paid, idx, part, pos, enough, eout) =
        swap-eq-ok e p₀ p' s s' user i j n least out h in
      let protocol_fee = quote.1 * p.protocol_fee_fraction / fee_multiplier in
      let best =
        get_amount_out-IsBest p.fee_fraction n (reserve_at p i) (reserve_at p j) quote.0 quote.1 pos
          quoted in
      let done = settle-Settled e p p' s₁ s' user i j n quote.0 protocol_fee new idx taken paid in
      let grown =
        Settled-product p p' i j n quote.0 quote.1 protocol_fee idx part best.0 best.1.1 done in
      (p, sync, enough, (protocol_fee, rw eout at done), grown)

  pub strict-eq-ok :
      (e : Env) (p₀ p' : Pool) (s s' : S) (user : Address) (i j out most n : ℕ)
      → swap_strict_receive o e (p₀, s) user i j out most ≡ ok (n, (p', s'))
      → (p : Pool) × (sync_reserves o e p₀ s ≡ ok p)
        × (quote : ℕ × ℕ) × (get_amount_out_strict_receive p.fee_fraction out
              (reserve_at p i)
              (reserve_at p j)
            ≡ ok quote)
        × (s₁ : S) × (o.transfer (token_at p i) user e.current_contract (as_i128 most) s ≡ ok s₁)
        × (s₂ : S) × ((if ltb 0 (most - quote.0)
              then o.transfer (token_at p i) e.current_contract user (as_i128 (most - quote.0)) s₁
              else ok s₁)
            ≡ ok s₂)
        × (new : ℕ × ℕ) × (take_in p i j quote.0 out ≡ ok new)
        × (pay_out o e p user j new out (quote.1 * p.protocol_fee_fraction / fee_multiplier) s₂
            ≡ ok (p', s'))
        × (check_indices i j ≡ ok tt)
        × (quote.1 * p.protocol_fee_fraction / fee_multiplier ≤ quote.1)
        × (0 < out)
        × (quote.0 ≤ most)
        × (quote.0 ≡ n)
  unfolding swap_strict_receive
  strict-eq-ok e p₀ p' s s' user i j out most n h = ground arith

  -- A swap to an exact output that succeeds takes no more than the given maximum; it adds what it
  -- takes to one reserve, less the fee that it sets aside for the protocol, and takes the output
  -- from the other; and the product of the reserves (as they stood after the sync) does not fall.
  pub swap_strict_receive-product :
      (e : Env) (p₀ p' : Pool) (s s' : S) (user : Address) (i j out most n : ℕ)
      → swap_strict_receive o e (p₀, s) user i j out most ≡ ok (n, (p', s'))
      → (p : Pool) × (sync_reserves o e p₀ s ≡ ok p)
        × (n ≤ most)
        × ((protocol_fee : ℕ) × Settled p j n out protocol_fee p')
        × (p.reserve_a * p.reserve_b ≤ p'.reserve_a * p'.reserve_b)
  swap_strict_receive-product e p₀ p' s s' user i j out most n h =
      let (p, sync, quote, quoted, _, _, s₂, _, new, taken, paid, idx, part, pos, enough, en) =
        strict-eq-ok e p₀ p' s s' user i j out most n h in
      let protocol_fee = quote.1 * p.protocol_fee_fraction / fee_multiplier in
      let (_, whole, least) =
        strict_receive-IsLeast p.fee_fraction out (reserve_at p i) (reserve_at p j) quote.0 quote.1
          pos quoted in
      let done = settle-Settled e p p' s₂ s' user i j quote.0 out protocol_fee new idx taken paid in
      let grown =
        Settled-product p p' i j quote.0 out quote.1 protocol_fee idx part whole least.0 done in
      (p, sync, rw en at enough, (protocol_fee, rw en at done), grown)
