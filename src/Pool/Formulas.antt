-- ===== src/Pool/Formulas.antt =====
-- liquidity_pool/src/pool.rs: what a deposit takes, what a swap pays, what a swap costs.
use soroban_amm.Prelude.{ℕ, ◌+◌, ◌*◌, ◌/◌, ◌&&◌, ◌||◌, true, false, ltb, leb, ◌==◌}
use soroban_amm.Host.{
  Math, Result, ok, ◌>>=◌, ◌>>◌, panic_if, validation, invalid_deposit_amount, ValidationError, fit,
  sub_checked,
}

abbrev pub fee_multiplier : ℕ
fee_multiplier = 10000

module _ ⦃m : Math⦄ where
  unfoldable pub get_deposit_amounts : ℕ → ℕ → ℕ → ℕ → ℕ → ℕ → Result (ℕ × ℕ)
  get_deposit_amounts desired_a min_a desired_b min_b reserve_a reserve_b =
      elim (reserve_a == 0 && reserve_b == 0) [
        | true ↦ ok (desired_a, desired_b)
        | false ↦ do
          amount_b ← m.fixed_mul_floor desired_a reserve_b reserve_a
          elim (leb amount_b desired_b) [
            | true ↦ do
              panic_if (ltb amount_b min_b) (validation invalid_deposit_amount)
              ok (desired_a, amount_b)
            | false ↦ do
              amount_a ← m.fixed_mul_floor desired_b reserve_a reserve_b
              panic_if (ltb desired_a amount_a || ltb amount_a min_a)
                  (validation invalid_deposit_amount)
              ok (amount_a, desired_b)
          ]
      ]

  -- The amount bought and the fee, which is taken on the input.
  unfoldable pub get_amount_out : ℕ → ℕ → ℕ → ℕ → Result (ℕ × ℕ)
  get_amount_out fee_fraction in_amount reserve_sell reserve_buy = elim (in_amount == 0) [
    | true ↦ ok (0, 0)
    | false ↦ do
      kept ← sub_checked fee_multiplier fee_fraction
      scaled ← fit 128 (in_amount * kept)
      let in_after_fee = scaled / fee_multiplier
      denominator ← fit 128 (reserve_sell + in_after_fee)
      raw_out ← m.fixed_mul_floor in_after_fee reserve_buy denominator
      fee ← sub_checked in_amount in_after_fee
      ok (raw_out, fee)
  ]

  -- The amount sold for exactly `out_amount`, and the fee in it.
  unfoldable pub get_amount_out_strict_receive : ℕ → ℕ → ℕ → ℕ → Result (ℕ × ℕ)
  get_amount_out_strict_receive fee_fraction out_amount reserve_sell reserve_buy =
      elim (out_amount == 0) [
        | true ↦ ok (0, 0)
        | false ↦ do
          panic_if (leb reserve_buy out_amount) (validation ValidationError.insufficient_balance)
          left ← sub_checked reserve_buy out_amount
          dx_after_fee ← m.fixed_mul_ceil reserve_sell out_amount left
          kept ← sub_checked fee_multiplier fee_fraction
          dx_before_fee ← m.fixed_mul_ceil dx_after_fee fee_multiplier kept
          fee ← sub_checked dx_before_fee dx_after_fee
          ok (dx_before_fee, fee)
      ]
