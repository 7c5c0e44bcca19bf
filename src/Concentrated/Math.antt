-- ===== src/Concentrated/Math.antt =====
-- liquidity_pool_concentrated/src/math.rs: amounts, liquidity and prices in 2 ^ 96ths and 2 ^ 128ths.
pub mod Wrapping
pub mod Deltas
pub mod Prices
pub mod Ratios
use soroban_amm.Prelude.{
  ℕ, ◌-◌, ◌^◌, ◌||◌, Bool, true, false, Option, none, some, ltb, leb, ◌==◌, if◌then◌else◌,
}
use soroban_amm.Host.{
  Math, Result, ok, err, ◌>>=◌, ◌>>◌, panic_if, or_panic, concentrated, ConcentratedPoolError,
}
use soroban_amm.Concentrated.U512.{max_u256, mul_div_floor, mul_div_ceil}
use soroban_amm.Utils.{sqrt}

abbrev pub q96 : ℕ
q96 = 2 ^ 96

abbrev pub q128 : ℕ
q128 = 2 ^ 128

-- `U256::to_u128`
unfoldable pub to_u128 : ℕ → Option ℕ
to_u128 v = if ltb v (2 ^ 128) then some v else none

-- `v.to_u128().unwrap_or(u128::MAX)`
unfoldable pub saturated : ℕ → ℕ
saturated v = if ltb v (2 ^ 128) then v else 2 ^ 128 - 1

unfoldable pub u256_to_u128 : ℕ → Result ℕ
u256_to_u128 v = or_panic (to_u128 v) (concentrated ConcentratedPoolError.liquidity_overflow)

abbrev pub min_sqrt_ratio : ℕ
min_sqrt_ratio = 4295128739

abbrev pub max_sqrt_ratio : ℕ
max_sqrt_ratio = 1461446703485210103287273052203988822378723970342

-- `if sa > sb { swap(sa, sb) }`
unfoldable pub ordered : ℕ → ℕ → ℕ × ℕ
ordered a b = if ltb b a then (b, a) else (a, b)

module _ ⦃m : Math⦄ where
  unfoldable pub wrapping_sub_u256 : ℕ → ℕ → Result ℕ
  wrapping_sub_u256 a b = elim (leb b a) [
    | true ↦ m.sub a b
    | false ↦ do below ← m.sub max_u256 b; sum ← m.add below a; m.add sum 1
  ]

  unfoldable pub wrapping_add_u256 : ℕ → ℕ → Result ℕ
  wrapping_add_u256 a b = do
    remaining ← m.sub max_u256 a
    elim (leb b remaining) [ true ↦ m.add a b | false ↦ do over ← m.sub b remaining; m.sub over 1 ]

  unfoldable pub u256_div_round_up : ℕ → ℕ → Result ℕ
  u256_div_round_up numerator denominator = do
    panic_if (denominator == 0) (concentrated ConcentratedPoolError.invalid_amount)
    elim (numerator == 0) [
      | true ↦ ok 0
      | false ↦ do
        quotient ← m.div numerator denominator
        remainder ← m.rem numerator denominator
        elim (remainder == 0) [ true ↦ ok quotient | false ↦ m.add quotient 1 ]
    ]

  unfoldable pub u256_mul_shift_128 : ℕ → ℕ → Result ℕ
  u256_mul_shift_128 a b = m.fixed_mul_floor_u256 a b (m.shl 1 128)

  unfoldable pub u256_mul_div : ℕ → ℕ → ℕ → Bool → Result ℕ
  u256_mul_div a b denominator round_up = do
    panic_if (denominator == 0) (concentrated ConcentratedPoolError.invalid_amount)
    if round_up
        then m.fixed_mul_ceil_u256 a b denominator
        else m.fixed_mul_floor_u256 a b denominator

  unfoldable pub mul_div_u128 : ℕ → ℕ → ℕ → Bool → Result ℕ
  mul_div_u128 amount numerator denominator round_up = do
    panic_if (denominator == 0) (concentrated ConcentratedPoolError.invalid_amount)
    if round_up
        then m.fixed_mul_ceil amount numerator denominator
        else m.fixed_mul_floor amount numerator denominator

  unfoldable pub fee_growth_delta_x128 : ℕ → ℕ → Result ℕ
  fee_growth_delta_x128 fee_amount liquidity = elim (fee_amount == 0 || liquidity == 0) [
    | true ↦ ok 0
    | false ↦ u256_mul_div fee_amount (m.shl 1 128) liquidity false
  ]

  unfoldable pub mul_div_fee_growth : ℕ → ℕ → Result ℕ
  mul_div_fee_growth growth_delta_x128 liquidity = elim (liquidity == 0) [
    | true ↦ ok 0
    | false ↦ do
      value ← u256_mul_div growth_delta_x128 liquidity (m.shl 1 128) false
      u256_to_u128 value
  ]

  -- `mul_div_ceil` or `mul_div_floor`, as `round_up` says.
  unfoldable pub mul_div_rounded : Bool → ℕ → ℕ → ℕ → Result ℕ
  mul_div_rounded round_up a b d = if round_up then mul_div_ceil a b d else mul_div_floor a b d

  -- `if round_up { u256_div_round_up(n, d) } else { n.div(d) }`
  unfoldable pub div_rounded : Bool → ℕ → ℕ → Result ℕ
  div_rounded round_up n d = if round_up then u256_div_round_up n d else m.div n d

  -- `amount0_delta_u256`: none where a price is zero.
  unfoldable pub amount0_delta_u256 : ℕ → ℕ → ℕ → Bool → Result (Option ℕ)
  amount0_delta_u256 sqrt_price_a_x96 sqrt_price_b_x96 liquidity round_up = elim (liquidity == 0) [
    | true ↦ ok (some 0)
    | false ↦
        let (sa, sb) = ordered sqrt_price_a_x96 sqrt_price_b_x96 in
        elim (sa == 0) [
          | true ↦ ok none
          | false ↦ do
            diff ← m.sub sb sa
            numerator1 ← m.mul liquidity (m.shl 1 96)
            temp ← mul_div_rounded round_up numerator1 diff sb
            amount ← div_rounded round_up temp sa
            ok (some amount)
        ]
  ]

  unfoldable pub amount1_delta_u256 : ℕ → ℕ → ℕ → Bool → Result ℕ
  amount1_delta_u256 sqrt_price_a_x96 sqrt_price_b_x96 liquidity round_up = elim (liquidity == 0) [
    | true ↦ ok 0
    | false ↦ do
      let (sa, sb) = ordered sqrt_price_a_x96 sqrt_price_b_x96
      diff ← m.sub sb sa
      mul_div_rounded round_up liquidity diff (m.shl 1 96)
  ]

  unfoldable pub amount0_delta : ℕ → ℕ → ℕ → Bool → Result ℕ
  amount0_delta a b liquidity round_up = do
    amount ← amount0_delta_u256 a b liquidity round_up
    elim amount [
      | some v ↦ ok (saturated v)
      | none ↦ err (concentrated ConcentratedPoolError.invalid_sqrt_price)
    ]

  unfoldable pub try_amount0_delta : ℕ → ℕ → ℕ → Bool → Result (Option ℕ)
  try_amount0_delta a b liquidity round_up = do
    amount ← amount0_delta_u256 a b liquidity round_up
    elim amount [ some v ↦ ok (to_u128 v) | none ↦ ok none ]

  unfoldable pub amount1_delta : ℕ → ℕ → ℕ → Bool → Result ℕ
  amount1_delta a b liquidity round_up = do
    amount ← amount1_delta_u256 a b liquidity round_up
    ok (saturated amount)

  unfoldable pub try_amount1_delta : ℕ → ℕ → ℕ → Bool → Result (Option ℕ)
  try_amount1_delta a b liquidity round_up = do
    amount ← amount1_delta_u256 a b liquidity round_up
    ok (to_u128 amount)

  unfoldable pub liquidity_for_amount0 : ℕ → ℕ → ℕ → Result ℕ
  liquidity_for_amount0 sqrt_price_a_x96 sqrt_price_b_x96 amount0 = elim (amount0 == 0) [
    | true ↦ ok 0
    | false ↦ do
      let (sa, sb) = ordered sqrt_price_a_x96 sqrt_price_b_x96
      diff ← m.sub sb sa
      elim (diff == 0) [
        | true ↦ ok 0
        | false ↦ do
          intermediate ← mul_div_floor sa sb (m.shl 1 96)
          result ← mul_div_floor amount0 intermediate diff
          u256_to_u128 result
      ]
  ]

  unfoldable pub liquidity_for_amount1 : ℕ → ℕ → ℕ → Result ℕ
  liquidity_for_amount1 sqrt_price_a_x96 sqrt_price_b_x96 amount1 = elim (amount1 == 0) [
    | true ↦ ok 0
    | false ↦ do
      let (sa, sb) = ordered sqrt_price_a_x96 sqrt_price_b_x96
      diff ← m.sub sb sa
      elim (diff == 0) [
        | true ↦ ok 0
        | false ↦ do result ← mul_div_floor amount1 (m.shl 1 96) diff; u256_to_u128 result
      ]
  ]

  -- `get_next_sqrt_price_from_amount0` with `add`, its threshold computed.
  unfoldable pub price_after_in0 : ℕ → ℕ → ℕ → ℕ → Result ℕ
  price_after_in0 numerator1 price amt threshold = elim (leb amt threshold) [
    | true ↦ do
      product ← m.mul amt price
      denominator ← m.add numerator1 product
      mul_div_ceil numerator1 price denominator
    | false ↦ do
      term ← m.div numerator1 price
      denominator ← m.add term amt
      u256_div_round_up numerator1 denominator
  ]

  -- Without.
  unfoldable pub price_after_out0 : ℕ → ℕ → ℕ → ℕ → Result ℕ
  price_after_out0 numerator1 price amt threshold = elim (leb amt threshold) [
    | true ↦ do
      product ← m.mul amt price
      panic_if (leb numerator1 product) (concentrated ConcentratedPoolError.price_out_of_bounds)
      denominator ← m.sub numerator1 product
      panic_if (denominator == 0) (concentrated ConcentratedPoolError.price_out_of_bounds)
      mul_div_ceil numerator1 price denominator
    | false ↦ err (concentrated ConcentratedPoolError.price_out_of_bounds)
  ]

  unfoldable pub get_next_sqrt_price_from_amount0 : ℕ → ℕ → ℕ → Bool → Result ℕ
  get_next_sqrt_price_from_amount0 sqrt_price_x96 liquidity amount add = elim (amount == 0) [
    | true ↦ ok sqrt_price_x96
    | false ↦ do
      numerator1 ← m.mul liquidity (m.shl 1 96)
      threshold ← m.div max_u256 sqrt_price_x96
      if add
          then price_after_in0 numerator1 sqrt_price_x96 amount threshold
          else price_after_out0 numerator1 sqrt_price_x96 amount threshold
  ]

  unfoldable pub get_next_sqrt_price_from_amount1 : ℕ → ℕ → ℕ → Bool → Result ℕ
  get_next_sqrt_price_from_amount1 sqrt_price_x96 liquidity amount add = elim add [
    | true ↦ do
      quotient ← mul_div_floor amount (m.shl 1 96) liquidity
      m.add sqrt_price_x96 quotient
    | false ↦ do
      quotient ← mul_div_ceil amount (m.shl 1 96) liquidity
      panic_if (leb sqrt_price_x96 quotient)
          (concentrated ConcentratedPoolError.price_out_of_bounds)
      m.sub sqrt_price_x96 quotient
  ]

  unfoldable pub get_next_sqrt_price_from_input : ℕ → ℕ → ℕ → Bool → Result ℕ
  get_next_sqrt_price_from_input sqrt_price_x96 liquidity amount_in zero_for_one =
      if zero_for_one
      then get_next_sqrt_price_from_amount0 sqrt_price_x96 liquidity amount_in true
      else get_next_sqrt_price_from_amount1 sqrt_price_x96 liquidity amount_in true

  unfoldable pub get_next_sqrt_price_from_output : ℕ → ℕ → ℕ → Bool → Result ℕ
  get_next_sqrt_price_from_output sqrt_price_x96 liquidity amount_out zero_for_one =
      if zero_for_one
      then get_next_sqrt_price_from_amount1 sqrt_price_x96 liquidity amount_out false
      else get_next_sqrt_price_from_amount0 sqrt_price_x96 liquidity amount_out false

  unfoldable pub sqrt_price_from_amounts : ℕ → ℕ → Result ℕ
  sqrt_price_from_amounts amount0 amount1 = do
    panic_if (amount0 == 0 || amount1 == 0) (concentrated ConcentratedPoolError.invalid_amount)
    q192 ← m.mul (m.shl 1 96) (m.shl 1 96)
    ratio_q192 ← mul_div_floor amount1 q192 amount0
    sqrt_price ← sqrt ratio_q192
    panic_if (ltb sqrt_price min_sqrt_ratio || leb max_sqrt_ratio sqrt_price)
        (concentrated ConcentratedPoolError.price_out_of_bounds)
    ok sqrt_price
