-- ===== src/Concentrated/Step/Amounts.antt =====
-- liquidity_pool_concentrated/src/contract/internal.rs: the amounts of a step, for both directions.
use native.Mathlib.Nat.{mul-le-mul}
use soroban_amm.Prelude.{ℕ, ◌+◌, ◌-◌, ◌*◌, ◌/◌, ◌^◌, ◌≤◌, ◌<◌, ◌≡◌, refl, Bool, true, false, arith}
use soroban_amm.Prelude.Arith.{ceil-le_of, le-ceil_mul, div_bounds}
use soroban_amm.Host.{Math, ok}
use soroban_amm.Concentrated.Math.{
  to_u128, saturated, amount0_delta, amount1_delta, try_amount0_delta, try_amount1_delta,
  get_next_sqrt_price_from_input,
}
use soroban_amm.Concentrated.Math.Deltas.{quotient, amount0_delta_u256-exact, amount1_lem}
use soroban_amm.Concentrated.Math.Prices.{
  price_in0, price_in1, price_in0-le, price_in0_lem, price_in1_lem,
}
use soroban_amm.Concentrated.Step.{
  reaches, clamped, amount_in_to, amount_out_to, try_amount_in_to, try_amount_out_to,
}

-- `b` lies ahead of `a`: lower when token 0 comes in, higher when token 1 does.
abbrev pub IsAhead : Bool → ℕ → ℕ → Type 0
IsAhead true a b = b ≤ a
IsAhead false a b = a ≤ b

-- The amounts between the price `p` and a price `q` ahead of it, rounded: what goes in, and what comes out.
abbrev pub amount_in_between : Bool → Bool → ℕ → ℕ → ℕ → ℕ
amount_in_between up true p q liquidity = quotient up (liquidity * 2 ^ 96 * (p - q)) (p * q)
amount_in_between up false p q liquidity = quotient up (liquidity * (q - p)) (2 ^ 96)

abbrev pub amount_out_between : Bool → ℕ → ℕ → ℕ → ℕ
amount_out_between true p q liquidity = quotient false (liquidity * (p - q)) (2 ^ 96)
amount_out_between false p q liquidity = quotient false (liquidity * 2 ^ 96 * (q - p)) (q * p)

-- The price to which an amount moves the price `p`.
abbrev pub moved : Bool → ℕ → ℕ → ℕ → ℕ
moved true p liquidity amount = price_in0 p liquidity amount
moved false p liquidity amount = price_in1 p liquidity amount

split0 : (n p q k amount : ℕ) → p ≡ q + k → n * p ≤ q * (n + amount * p) → n * k ≤ amount * (p * q)
split0 n p q k amount e h =
    let h' : n * (q + k) ≤ q * (n + amount * (q + k)) = rw e at h in rw e (omega arith)

split1 :
    (l p q k amount : ℕ)
    → q ≡ p + k
    → k ≤ amount * 2 ^ 96 / l
    → 0 < l
    → l * (q - p) ≤ amount * 2 ^ 96
split1 l p q k amount e h pos =
    let le : l * k ≤ l * (amount * 2 ^ 96 / l) = mul-le-mul {n₂ = l} (omega arith) h in
    let back = div_bounds (amount * 2 ^ 96) l pos in
    let same : q - p ≡ k = omega arith in rw same (omega arith)

-- A price not beyond the one that an amount leads to costs at most that amount.
pub in-le :
    (zero_for_one : Bool) (p q liquidity amount : ℕ)
    → 0 < p
    → 0 < q
    → 0 < liquidity
    → IsAhead zero_for_one p q
    → IsAhead zero_for_one q (moved zero_for_one p liquidity amount)
    → amount_in_between true zero_for_one p q liquidity ≤ amount
in-le true p q liquidity amount pos posq posl ahead reached =
    let n = liquidity * 2 ^ 96 in
    let cover : n * p ≤ price_in0 p liquidity amount * (n + amount * p) =
      le-ceil_mul (n * p) (n + amount * p) (omega arith) in
    let mono : price_in0 p liquidity amount * (n + amount * p) ≤ q * (n + amount * p) =
      mul-le-mul {n₂ = q} {m₂ = n + amount * p} reached (omega arith) in
    let positive : 1 * 1 ≤ p * q = mul-le-mul {n₂ = p} {m₂ = q} pos posq in
    ceil-le_of (n * (p - q)) (p * q) amount (omega arith)
      (split0 n p q (p - q) amount (omega arith) (omega arith))
in-le false p q liquidity amount pos posq posl ahead reached =
    ceil-le_of (liquidity * (q - p)) (2 ^ 96) amount (omega arith)
      (split1 liquidity p q (q - p) amount (omega arith) (omega arith) posl)

pub reaches_le : (v amount : ℕ) → reaches (to_u128 v) amount ≡ true → v ≤ amount
unfolding reaches to_u128
reaches_le v amount h = ground arith

pub saturated_lem : (v : ℕ) → v < 2 ^ 128 → saturated v ≡ v
unfolding saturated
saturated_lem v h = ground arith

pub moved_lem :
    (zero_for_one : Bool) (p liquidity amount : ℕ)
    → 0 < liquidity
    → IsAhead zero_for_one p (moved zero_for_one p liquidity amount)
moved_lem true p liquidity amount pos = price_in0-le p liquidity amount pos
moved_lem false p liquidity amount pos = omega arith

-- The clamped price lies between the current price and both others.
pub clamped_lem :
    (zero_for_one : Bool) (p computed target : ℕ)
    → IsAhead zero_for_one p computed
    → IsAhead zero_for_one p target
    → IsAhead zero_for_one p (clamped zero_for_one computed target)
      × IsAhead zero_for_one (clamped zero_for_one computed target) target
      × IsAhead zero_for_one (clamped zero_for_one computed target) computed
unfolding clamped
clamped_lem true p computed target h k = ground arith
clamped_lem false p computed target h k = ground arith

module _ ⦃m : Math⦄ where
  pub amount_in_lem :
      (zero_for_one : Bool) (p q liquidity : ℕ)
      → 0 < q
      → p < 2 ^ 160
      → q < 2 ^ 160
      → IsAhead zero_for_one p q
      → 0 < liquidity
      → liquidity < 2 ^ 128
      → (amount_in_to zero_for_one p q liquidity
          ≡ ok (saturated (amount_in_between true zero_for_one p q liquidity)))
        × (try_amount_in_to zero_for_one p q liquidity
            ≡ ok (to_u128 (amount_in_between true zero_for_one p q liquidity)))
  unfolding amount_in_to try_amount_in_to amount0_delta amount1_delta try_amount0_delta
      try_amount1_delta
  amount_in_lem true p q liquidity pos small small' ahead posl fits =
      let run = amount0_delta_u256-exact q p liquidity true pos ahead small posl fits in
      (
        rw (amount_in_to, amount0_delta, run) refl,
        rw (try_amount_in_to, try_amount0_delta, run) refl,
      )
  amount_in_lem false p q liquidity pos small small' ahead posl fits =
      let run = amount1_lem p q liquidity true ahead small' posl fits in
      (
        rw (amount_in_to, amount1_delta, run) refl,
        rw (try_amount_in_to, try_amount1_delta, run) refl,
      )

  pub amount_out_lem :
      (zero_for_one : Bool) (p q liquidity : ℕ)
      → 0 < p
      → p < 2 ^ 160
      → q < 2 ^ 160
      → IsAhead zero_for_one p q
      → 0 < liquidity
      → liquidity < 2 ^ 128
      → (amount_out_to zero_for_one p q liquidity
          ≡ ok (saturated (amount_out_between zero_for_one p q liquidity)))
        × (try_amount_out_to zero_for_one p q liquidity
            ≡ ok (to_u128 (amount_out_between zero_for_one p q liquidity)))
  unfolding amount_out_to try_amount_out_to amount0_delta amount1_delta try_amount0_delta
      try_amount1_delta
  amount_out_lem true p q liquidity pos small small' ahead posl fits =
      let run = amount1_lem q p liquidity false ahead small posl fits in
      (
        rw (amount_out_to, amount1_delta, run) refl,
        rw (try_amount_out_to, try_amount1_delta, run) refl,
      )
  amount_out_lem false p q liquidity pos small small' ahead posl fits =
      let run = amount0_delta_u256-exact p q liquidity false pos ahead small' posl fits in
      (
        rw (amount_out_to, amount0_delta, run) refl,
        rw (try_amount_out_to, try_amount0_delta, run) refl,
      )

  pub next_in_lem :
      (zero_for_one : Bool) (p liquidity amount : ℕ)
      → 0 < p
      → p < 2 ^ 160
      → 0 < liquidity
      → liquidity < 2 ^ 128
      → amount < 2 ^ 128
      → liquidity * 2 ^ 96 + amount * p < 2 ^ 256
      → get_next_sqrt_price_from_input p liquidity amount zero_for_one
        ≡ ok (moved zero_for_one p liquidity amount)
  unfolding get_next_sqrt_price_from_input
  next_in_lem true p liquidity amount pos small posl fits fits' room =
      price_in0_lem p liquidity amount pos small posl fits room
  next_in_lem false p liquidity amount pos small posl fits fits' room =
      price_in1_lem p liquidity amount small posl fits fits'
