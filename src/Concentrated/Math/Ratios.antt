-- ===== src/Concentrated/Math/Ratios.antt =====
-- liquidity_pool_concentrated/src/math.rs: the price at a tick, and the tick at a price.
pub mod Product
use soroban_amm.Prelude.{
  ℕ, zero, suc, ◌+◌, ◌-◌, ◌*◌, ◌/◌, ◌%◌, ◌^◌, Bool, true, false, ◌||◌, not, List, [], ◌∷◌, ltb, leb,
  ◌==◌, if◌then◌else◌,
}
use soroban_amm.Host.{Math, Result, ok, ◌>>=◌, ◌>>◌, panic_if, concentrated, ConcentratedPoolError}
use soroban_amm.Host.Integer.{ℤ, pos, negsuc, pos_part, neg_part, sub_ℕ, ◌+ℤ◌, ◌-ℤ◌, ltb_ℤ}
use soroban_amm.Concentrated.U512.{max_u256}
use soroban_amm.Concentrated.Ticks.{min_tick, max_tick, eqb_ℤ, times}
use soroban_amm.Concentrated.Math.{u256_mul_shift_128, u256_to_u128, min_sqrt_ratio, max_sqrt_ratio}

-- `TICK_MULTIPLIERS`
abbrev pub tick_multipliers : List ℕ
tick_multipliers =
    340265354078544963557816517032075149313 ∷ 340248342086729790484326174814286782778
    ∷ 340214320654664324051920982716015181260 ∷ 340146287995602323631171512101879684304
    ∷ 340010263488231146823593991679159461444 ∷ 339738377640345403697157401104375502016
    ∷ 339195258003219555707034227454543997025 ∷ 338111622100601834656805679988414885971
    ∷ 335954724994790223023589805789778977700 ∷ 331682121138379247127172139078559817300
    ∷ 323299236684853023288211250268160618739 ∷ 307163716377032989948697243942600083929
    ∷ 277268403626896220162999269216087595045 ∷ 225923453940442621947126027127485391333
    ∷ 149997214084966997727330242082538205943 ∷ 66119101136024775622716233608466517926
    ∷ 12847376061809297530290974190478138313 ∷ 485053260817066172746253684029974020
    ∷ 691415978906521570653435304214168 ∷ 1404880482679654955896180642 ∷ []

module _ ⦃m : Math⦄ where
  -- The loop over the multipliers; the lowest bit of `bits` says whether the first of them is used.
  unfoldable pub multiply_ratio : List ℕ → ℕ → ℕ → Result ℕ
  multiply_ratio [] bits ratio = ok ratio
  multiply_ratio (mul ∷ muls) bits ratio = do
    ratio' ← if bits % 2 == 1 then u256_mul_shift_128 ratio mul else ok ratio
    multiply_ratio muls (bits / 2) ratio'

  unfoldable pub sqrt_ratio_at_tick : ℤ → Result ℕ
  sqrt_ratio_at_tick tick = do
    panic_if (ltb_ℤ tick min_tick || ltb_ℤ max_tick tick)
        (concentrated ConcentratedPoolError.tick_out_of_bounds)
    let abs_tick = pos_part tick + neg_part tick
    product ← multiply_ratio tick_multipliers abs_tick (m.shl 1 128)
    ratio ← if ltb_ℤ (pos 0) tick then m.div max_u256 product else ok product
    let sqrt_price_x96 = m.shr ratio 32
    rest ← m.rem ratio (m.shl 1 32)
    if rest == 0 then ok sqrt_price_x96 else m.add sqrt_price_x96 1

-- 128-bit times 128-bit, as the high and the low half. No sum here overflows 128 bits.
unfoldable pub widening_mul : ℕ → ℕ → ℕ × ℕ
widening_mul a b =
    let a0 = a % 2 ^ 64 in
    let a1 = a / 2 ^ 64 in
    let b0 = b % 2 ^ 64 in
    let b1 = b / 2 ^ 64 in
    let p00 = a0 * b0 in
    let p01 = a0 * b1 in
    let p10 = a1 * b0 in
    let p11 = a1 * b1 in
    let mid = p00 / 2 ^ 64 + p01 % 2 ^ 64 + p10 % 2 ^ 64 in
    let lo = p00 % 2 ^ 64 + mid % 2 ^ 64 * 2 ^ 64 in
    let hi = p11 + p01 / 2 ^ 64 + p10 / 2 ^ 64 + mid / 2 ^ 64 in (hi, lo)

-- `127 - n.leading_zeros()` of a number of at most `fuel` bits that is not zero.
unfoldable pub highest_bit : ℕ → ℕ → ℕ
highest_bit zero n = 0
highest_bit (suc fuel) n =
    let above = highest_bit fuel (n / 2) in if n / 2 == 0 then 0 else suc above

abbrev pub log_sqrt10001 : ℕ
log_sqrt10001 = 255738958999603826347141

abbrev pub tick_low_error : ℕ
tick_low_error = 3402992956809132418596140100660247210

abbrev pub tick_hi_error : ℕ
tick_hi_error = 291339464771989622907027621153398088495

-- `r`, with 128 bits of which the highest is set.
unfoldable pub normalized : ℕ → ℕ → ℕ → ℕ
normalized ratio_hi ratio_lo msb =
    if leb 128 msb
    then ratio_hi * 2 ^ (128 - (msb - 127)) % 2 ^ 128 + ratio_lo / 2 ^ (msb - 127)
    else ratio_lo * 2 ^ (127 - msb) % 2 ^ 128

-- The loop over the bits of the logarithm: `turns` bits from `50 + turns - 1` down to 50.
unfoldable pub log_bits : ℕ → ℕ → ℤ → ℤ
log_bits zero r log_2 = log_2
log_bits (suc turns) r log_2 =
    let (sq_hi, sq_lo) = widening_mul r r in
    let f = sq_hi / 2 ^ 127 in
    let r' = if f == 0 then sq_hi * 2 % 2 ^ 128 + sq_lo / 2 ^ 127 else sq_hi in
    log_bits turns r' (log_2 +ℤ pos (f * 2 ^ (50 + turns)))

-- The product of the logarithm with `LOG_SQRT10001`, as a signed high and an unsigned low half.
unfoldable pub log_halves : ℤ → ℤ × ℕ
log_halves log_2 =
    let (mul_hi, mul_lo) = widening_mul (pos_part log_2 + neg_part log_2) log_sqrt10001 in
    if not (ltb_ℤ log_2 (pos 0))
    then (pos mul_hi, mul_lo)
    else if mul_lo == 0
    then (sub_ℕ 0 mul_hi, 0)
    else (sub_ℕ 0 mul_hi -ℤ pos 1, 2 ^ 128 - mul_lo)

-- The two candidates for the tick.
unfoldable pub tick_bounds : ℤ × ℕ → ℤ × ℤ
tick_bounds (log_hi, log_lo) = (
  log_hi -ℤ pos (if ltb log_lo tick_low_error then 1 else 0),
  log_hi +ℤ pos (if leb (2 ^ 128) (log_lo + tick_hi_error) then 1 else 0),
)

module _ ⦃m : Math⦄ where
  unfoldable pub tick_at_sqrt_ratio : ℕ → Result ℤ
  tick_at_sqrt_ratio sqrt_price_x96 = do
    panic_if (ltb sqrt_price_x96 min_sqrt_ratio || leb max_sqrt_ratio sqrt_price_x96)
        (concentrated ConcentratedPoolError.price_out_of_bounds)
    let ratio = m.shl sqrt_price_x96 32
    ratio_hi ← u256_to_u128 (m.shr ratio 128)
    low ← m.sub ratio (m.shl (m.shr ratio 128) 128)
    ratio_lo ← u256_to_u128 low
    let msb = if ltb 0 ratio_hi then 128 + highest_bit 128 ratio_hi else highest_bit 128 ratio_lo
    let r = normalized ratio_hi ratio_lo msb
    let log_2 = log_bits 14 r (times (pos msb -ℤ pos 128) (2 ^ 64))
    let (tick_low, tick_hi) = tick_bounds (log_halves log_2)
    elim (eqb_ℤ tick_low tick_hi) [
      | true ↦ ok tick_low
      | false ↦ do
        at_hi ← sqrt_ratio_at_tick tick_hi
        ok (if leb at_hi sqrt_price_x96 then tick_hi else tick_low)
    ]
