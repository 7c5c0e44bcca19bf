-- ===== src/Concentrated/Weight.antt =====
-- rewards/src/concentrated_weight.rs, and the weighted liquidity of
-- liquidity_pool_concentrated/src/contract/internal.rs.
use soroban_amm.Prelude.{
  ℕ, ◌-◌, ◌*◌, ◌/◌, ◌^◌, Bool, false, ◌&&◌, ◌||◌, not, none, some, List, [], ◌∷◌, ltb, leb, ◌==◌,
  if◌then◌else◌,
}
use soroban_amm.Host.{Address}
use soroban_amm.Host.Integer.{ℤ, pos, pos_part, ◌-ℤ◌, ltb_ℤ}
use soroban_amm.Concentrated.Ticks.{eqb_ℤ}
use soroban_amm.Concentrated.State.{Pool, PositionRange, set_user_state}
use soroban_amm.Concentrated.Liquidity.{saturating_add}

abbrev pub bps_denominator : ℕ
bps_denominator = 10000

unfoldable pub max_distance_for_fee : ℕ → ℕ
max_distance_for_fee fee = fee * 50

unfoldable pub tick_distance_from_range : ℤ → ℤ → ℤ → ℕ
tick_distance_from_range tick_current tick_lower tick_upper =
    let beyond = pos_part (tick_current -ℤ tick_upper) in
    if not (ltb_ℤ tick_lower tick_upper)
    then 0
    else if ltb_ℤ tick_current tick_lower
    then pos_part (tick_lower -ℤ tick_current)
    else if ltb_ℤ tick_current tick_upper
    then 0
    else if beyond == 0
    then 1
    else beyond

unfoldable pub distance_multiplier_bps : ℕ → ℕ → ℕ
distance_multiplier_bps distance max_distance =
    let rest = max_distance - distance in
    if distance == 0
    then bps_denominator
    else if max_distance == 0 || leb max_distance distance
    then 0
    else bps_denominator * rest * rest / (max_distance * max_distance)

unfoldable pub position_multiplier_bps : ℤ → ℤ → ℤ → ℕ → ℕ
position_multiplier_bps tick_current tick_lower tick_upper fee =
    distance_multiplier_bps (tick_distance_from_range tick_current tick_lower tick_upper)
      (max_distance_for_fee fee)

unfoldable pub apply_multiplier : ℕ → ℕ → ℕ
apply_multiplier amount multiplier_bps =
    let multiplier =
      if ltb multiplier_bps bps_denominator then multiplier_bps else bps_denominator in
    let product = amount * multiplier in
    (if ltb product (2 ^ 128) then product else 2 ^ 128 - 1) / bps_denominator

-- A range that the computation looks at with another liquidity than the stored one.
pub record Target : Type 0 where
  pub lower : ℤ
  pub upper : ℤ
  pub liquidity : ℕ

unfoldable pub is_target : Target → PositionRange → Bool
is_target t range = eqb_ℤ range.tick_lower t.lower && eqb_ℤ range.tick_upper t.upper

unfoldable pub liquidity_of : Pool → Address → Target → PositionRange → ℕ
liquidity_of p user t range =
    if is_target t range
    then t.liquidity
    else (elim (p.positions user range.tick_lower range.tick_upper) [
      | some position ↦ position.liquidity
      | none ↦ 0
    ])

-- What a range adds to the weighted liquidity.
unfoldable pub add_weight : Pool → ℤ → ℤ → ℕ → ℕ → ℕ
add_weight p lower upper liquidity weighted =
    let multiplier = position_multiplier_bps p.slot0.tick lower upper p.fee in
    if liquidity == 0
    then weighted
    else saturating_add weighted (apply_multiplier liquidity multiplier)

-- The loop over the user's ranges: the weight, and whether the target was among them.
unfoldable pub weigh : Pool → Address → Target → List PositionRange → ℕ × Bool → ℕ × Bool
weigh p user t [] state = state
weigh p user t (range ∷ ranges) (weighted, applied) = weigh p user t ranges (
  add_weight p range.tick_lower range.tick_upper (liquidity_of p user t range) weighted,
  applied || is_target t range,
)

unfoldable pub compute_user_weighted_liquidity : Pool → Address → Target → ℕ
compute_user_weighted_liquidity p user t =
    let (weighted, applied) = weigh p user t (p.users user).positions (0, false) in
    if applied then weighted else add_weight p t.lower t.upper t.liquidity weighted

-- The total after a user's weight has changed.
unfoldable pub total_after : ℕ → ℕ → ℕ → ℕ
total_after total before weighted =
    if leb before weighted
    then saturating_add total (weighted - before)
    else total - (before - weighted)

unfoldable pub recompute_user_weighted_liquidity : Address → Pool → Pool
recompute_user_weighted_liquidity user p =
    let none_at : Target = record { lower = pos 0; upper = pos 0; liquidity = 0 } in
    let weighted = compute_user_weighted_liquidity p user none_at in
    let state = p.users user in
    let total = total_after p.total_weighted_liquidity state.weighted_liquidity weighted in
    set_user_state user (record state { weighted_liquidity = weighted })
      (record p { total_weighted_liquidity = total })
