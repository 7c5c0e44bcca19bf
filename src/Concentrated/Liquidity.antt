-- ===== src/Concentrated/Liquidity.antt =====
-- liquidity_pool_concentrated/src/contract/internal.rs: ranges of ticks, and the liquidity at a tick
-- and of a user.
use soroban_amm.Prelude.{
  ℕ, ◌+◌, ◌-◌, ◌^◌, Bool, true, false, ◌&&◌, ◌||◌, not, List, [], ◌∷◌, ◌++◌, length, leb, ltb, ◌==◌,
  if◌then◌else◌,
}
use soroban_amm.Host.{
  Address, Math, Result, ok, ◌>>=◌, ◌>>◌, panic_if, concentrated, ConcentratedPoolError,
}
use soroban_amm.Host.Integer.{ℤ, pos, negsuc, pos_part, neg_part, ◌+ℤ◌, ◌-ℤ◌, ltb_ℤ}
use soroban_amm.Concentrated.Ticks.{
  eqb_ℤ, min_tick, max_tick, max_liquidity_per_tick, truncated_rem, chunk_address, compress_tick,
  saturated_i32,
}
use soroban_amm.Concentrated.State.{
  Pool, TickInfo, PositionRange, set_user_state, get_tick, write_tick, get_or_create_tick_chunk,
}
use soroban_amm.Concentrated.Search.{
  chunk_has_initialized, update_chunk_bitmap_bit, find_next_global_tick,
}

abbrev pub max_user_positions : ℕ
max_user_positions = 20

unfoldable pub check_ticks_internal : Pool → ℤ → ℤ → Result (Unit {0})
check_ticks_internal p tick_lower tick_upper = do
  panic_if (not (ltb_ℤ tick_lower tick_upper))
      (concentrated ConcentratedPoolError.tick_lower_not_less_than_upper)
  panic_if (ltb_ℤ tick_lower min_tick) (concentrated ConcentratedPoolError.tick_lower_too_low)
  panic_if (ltb_ℤ max_tick tick_upper) (concentrated ConcentratedPoolError.tick_upper_too_high)
  panic_if (p.tick_spacing == 0) (concentrated ConcentratedPoolError.invalid_tick_spacing)
  panic_if
      (not (eqb_ℤ (truncated_rem tick_lower p.tick_spacing) (pos 0))
        || not (eqb_ℤ (truncated_rem tick_upper p.tick_spacing) (pos 0)))
      (concentrated ConcentratedPoolError.tick_not_spaced_correctly)

unfoldable pub full_range_ticks : Pool → Result (ℤ × ℤ)
full_range_ticks p = do
  panic_if (p.tick_spacing == 0) (concentrated ConcentratedPoolError.invalid_tick_spacing)
  let low = min_tick -ℤ truncated_rem min_tick p.tick_spacing
  let high = max_tick -ℤ truncated_rem max_tick p.tick_spacing
  let tick_lower = if ltb_ℤ low min_tick then saturated_i32 (low +ℤ pos p.tick_spacing) else low
  let tick_upper = if ltb_ℤ max_tick high then saturated_i32 (high -ℤ pos p.tick_spacing) else high
  check_ticks_internal p tick_lower tick_upper
  ok (tick_lower, tick_upper)

-- `delta.unsigned_abs()`
abbrev pub magnitude : ℤ → ℕ
magnitude z = pos_part z + neg_part z

-- The new `liquidity_gross` of a tick.
unfoldable pub gross_after : ℕ → ℤ → ℕ → Result ℕ
gross_after gross (pos delta) spacing = do
  panic_if (not (ltb (gross + delta) (2 ^ 128)))
      (concentrated ConcentratedPoolError.liquidity_overflow)
  panic_if (ltb (max_liquidity_per_tick spacing) (gross + delta))
      (concentrated ConcentratedPoolError.liquidity_overflow)
  ok (gross + delta)
gross_after gross (negsuc n) spacing = do
  panic_if (ltb gross (n + 1)) (concentrated ConcentratedPoolError.liquidity_underflow)
  ok (gross - (n + 1))

-- `checked_add` and `checked_sub` of `i128`s, with their panic.
unfoldable pub or_overflow : ℤ → Result ℤ
or_overflow z = do
  panic_if (not (ltb (pos_part z) (2 ^ 127) && leb (neg_part z) (2 ^ 127)))
      (concentrated ConcentratedPoolError.liquidity_overflow)
  ok z

unfoldable pub net_after : ℤ → ℤ → Bool → Result ℤ
net_after net delta true = or_overflow (net -ℤ delta)
net_after net delta false = or_overflow (net +ℤ delta)

-- The fee growth that a tick keeps for one of the tokens: the whole growth when it is initialized
-- at or below the current tick, none when it ceases to be initialized.
unfoldable pub outside_after : Bool → Bool → Bool → ℕ → ℕ → ℕ
outside_after false true below outside global = if below then global else outside
outside_after true false below outside global = 0
outside_after false false below outside global = outside
outside_after true true below outside global = outside

unfoldable pub tick_after : Pool → ℤ → TickInfo → ℕ → ℤ → TickInfo
tick_after p tick_idx tick gross net =
    let was = ltb 0 tick.liquidity_gross in
    let is = ltb 0 gross in
    let below = not (ltb_ℤ p.slot0.tick tick_idx) in
    let outside_0 = tick.fee_growth_outside_0_x128 in
    let outside_1 = tick.fee_growth_outside_1_x128 in
    record {
      fee_growth_outside_0_x128 = outside_after was is below outside_0 p.fee_growth_global_0_x128;
      fee_growth_outside_1_x128 = outside_after was is below outside_1 p.fee_growth_global_1_x128;
      liquidity_gross = gross;
      liquidity_net = net;
    }

-- The bounds of the initialized ticks when one is added.
unfoldable pub expand_bounds : ℤ → Pool → Pool
expand_bounds tick_idx p = record p {
  min_init_tick = if ltb_ℤ tick_idx p.min_init_tick then tick_idx else p.min_init_tick;
  max_init_tick = if ltb_ℤ p.max_init_tick tick_idx then tick_idx else p.max_init_tick;
}

module _ ⦃m : Math⦄ where
  -- The bounds when one is removed.
  unfoldable pub shrink_bounds : ℤ → Pool → Result Pool
  shrink_bounds tick_idx p = do
    lowest ← elim (eqb_ℤ tick_idx p.min_init_tick) [
      | true ↦ find_next_global_tick p tick_idx p.tick_spacing false
      | false ↦ ok p.min_init_tick
    ]
    highest ← elim (eqb_ℤ tick_idx p.max_init_tick) [
      | true ↦ find_next_global_tick p tick_idx p.tick_spacing true
      | false ↦ ok p.max_init_tick
    ]
    ok (record p { min_init_tick = lowest; max_init_tick = highest })

  -- The end of `update_tick_liquidity`: the bitmaps and the bounds, by whether the tick was and is
  -- initialized.
  unfoldable pub update_bitmap : Bool → Bool → ℤ → Pool → Result Pool
  update_bitmap false true tick_idx p = do
    let (chunk_pos, slot) = chunk_address (compress_tick tick_idx p.tick_spacing)
    ok (expand_bounds tick_idx (update_chunk_bitmap_bit chunk_pos true p))
  update_bitmap true false tick_idx p = do
    let (chunk_pos, slot) = chunk_address (compress_tick tick_idx p.tick_spacing)
    any_init ← chunk_has_initialized (get_or_create_tick_chunk p chunk_pos)
    shrink_bounds tick_idx (if any_init then p else update_chunk_bitmap_bit chunk_pos false p)
  update_bitmap false false tick_idx p = ok p
  update_bitmap true true tick_idx p = ok p

  unfoldable pub update_tick_liquidity : ℤ → ℤ → Bool → Pool → Result Pool
  update_tick_liquidity tick_idx liquidity_delta is_upper p = do
    tick ← get_tick p tick_idx p.tick_spacing
    gross ← gross_after tick.liquidity_gross liquidity_delta p.tick_spacing
    net ← net_after tick.liquidity_net liquidity_delta is_upper
    p' ← write_tick p tick_idx p.tick_spacing (tick_after p tick_idx tick gross net)
    update_bitmap (ltb 0 tick.liquidity_gross) (ltb 0 gross) tick_idx p'

-- Whether a range is in a user's list.
unfoldable pub has_range : ℤ → ℤ → List PositionRange → Bool
has_range lower upper [] = false
has_range lower upper (range ∷ ranges) =
    (eqb_ℤ range.tick_lower lower && eqb_ℤ range.tick_upper upper) || has_range lower upper ranges

unfoldable pub without_range : ℤ → ℤ → List PositionRange → List PositionRange
without_range lower upper [] = []
without_range lower upper (range ∷ ranges) =
    let rest = without_range lower upper ranges in
    if eqb_ℤ range.tick_lower lower && eqb_ℤ range.tick_upper upper then rest else range ∷ rest

unfoldable pub with_positions : Address → List PositionRange → Pool → Pool
with_positions user positions p =
    set_user_state user (record (p.users user) { positions = positions }) p

unfoldable pub ensure_user_range_exists : Address → ℤ → ℤ → Pool → Result Pool
ensure_user_range_exists user tick_lower tick_upper p = do
  let ranges = (p.users user).positions
  let range : PositionRange = record { tick_lower = tick_lower; tick_upper = tick_upper }
  elim (has_range tick_lower tick_upper ranges) [
    | true ↦ ok p
    | false ↦ do
      panic_if (leb max_user_positions (length ranges))
          (concentrated ConcentratedPoolError.too_many_positions)
      ok (with_positions user (ranges ++ (range ∷ [])) p)
  ]

unfoldable pub remove_user_range_if_empty : Address → ℤ → ℤ → Pool → Pool
remove_user_range_if_empty user tick_lower tick_upper p =
    with_positions user (without_range tick_lower tick_upper (p.users user).positions) p

-- A saturating sum of `u128`s.
unfoldable pub saturating_add : ℕ → ℕ → ℕ
saturating_add a b = if ltb (a + b) (2 ^ 128) then a + b else 2 ^ 128 - 1

-- `checked_sub` with its panic.
unfoldable pub or_underflow : ℕ → ℕ → Result ℕ
or_underflow a b = do
  panic_if (ltb a b) (concentrated ConcentratedPoolError.liquidity_underflow)
  ok (a - b)

unfoldable pub put_raw : Address → ℕ → ℕ → Pool → Pool
put_raw user raw total p =
    set_user_state user (record (p.users user) { raw_liquidity = raw })
      (record p { total_raw_liquidity = total })

unfoldable pub update_user_raw_liquidity : Address → ℤ → Pool → Result Pool
update_user_raw_liquidity user (pos inc) p = ok (
    put_raw user (saturating_add (p.users user).raw_liquidity inc)
      (saturating_add p.total_raw_liquidity inc) p)
update_user_raw_liquidity user (negsuc n) p = do
  raw ← or_underflow (p.users user).raw_liquidity (n + 1)
  total ← or_underflow p.total_raw_liquidity (n + 1)
  ok (put_raw user raw total p)
