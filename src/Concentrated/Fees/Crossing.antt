-- ===== src/Concentrated/Fees/Crossing.antt =====
-- liquidity_pool_concentrated/src/contract/internal.rs: the fee growth inside a range when a swap
-- crosses one of its ends.
use soroban_amm.Prelude.{
  ◌<◌, ◌≡◌, ◌∙◌, sym, ap, subst, Bool, true, false, not, ◌||◌, ◌==◌, arith, if◌then◌else◌,
}
use soroban_amm.Host.{Math, Error, ok, panic_if}
use soroban_amm.Host.Inversion.{bind-ok, ok-injective}
use soroban_amm.Host.Integer.{ℤ, pos, ltb_ℤ}
use soroban_amm.Concentrated.Ticks.{
  eqb_ℤ, truncated_rem, min_tick, max_tick, compressed_to_tick, compressed_of,
}
use soroban_amm.Concentrated.Ticks.Floor.{compressed_to_tick-chunk_address}
use soroban_amm.Concentrated.State.{Pool}
use soroban_amm.Concentrated.State.Places.{eq_of_eqb, place}
use soroban_amm.Concentrated.Search.{ChunkCache, flush}
use soroban_amm.Concentrated.Liquidity.{check_ticks_internal}
use soroban_amm.Concentrated.Fees.{compute_fee_growth_inside, cross_tick}
use soroban_amm.Concentrated.Fees.Inside.{
  HasWords, side, ok-inside, flip-low, flip-high, inside_lem, turned_over_lem,
}
use soroban_amm.Concentrated.Fees.Shared.{cross_tick_lem}
use soroban_amm.Concentrated.Fees.Uses.{HasGrowth, Sound, Uses, Uses-Sound}

-- Whether a tick lies between two current ticks: at or below one of them, and above the other.
abbrev pub IsAcross : ℤ → ℤ → ℤ → Type 0
IsAcross tick before after = ltb_ℤ after tick ≡ not (ltb_ℤ before tick)

on_grid :
    (a b : ℤ) (e : Error)
    → panic_if (not (eqb_ℤ a (pos 0)) || not (eqb_ℤ b (pos 0))) e ≡ ok tt
    → (a ≡ pos 0) × (b ≡ pos 0)
on_grid a b e h =
    let left : eqb_ℤ a (pos 0) ≡ true = ground arith in
    let right : eqb_ℤ b (pos 0) ≡ true = ground arith in
    (eq_of_eqb a (pos 0) left, eq_of_eqb b (pos 0) right)

check_ticks-ok :
    (p : Pool) (lower upper : ℤ)
    → check_ticks_internal p lower upper ≡ ok tt
    → (ltb_ℤ lower upper ≡ true)
      × (ltb_ℤ lower min_tick ≡ false)
      × (ltb_ℤ max_tick upper ≡ false)
      × (0 < p.tick_spacing)
      × (truncated_rem lower p.tick_spacing ≡ pos 0)
      × (truncated_rem upper p.tick_spacing ≡ pos 0)
unfolding check_ticks_internal
check_ticks-ok p lower upper h =
    let (_, e₁, h₁) = bind-ok (panic_if (not (ltb_ℤ lower upper)) _) _ tt h in
    let (_, e₂, h₂) = bind-ok (panic_if (ltb_ℤ lower min_tick) _) _ tt h₁ in
    let (_, e₃, h₃) = bind-ok (panic_if (ltb_ℤ max_tick upper) _) _ tt h₂ in
    let (_, e₄, h₄) = bind-ok (panic_if (p.tick_spacing == 0) _) _ tt h₃ in
    let (grid, grid') =
      on_grid (truncated_rem lower p.tick_spacing) (truncated_rem upper p.tick_spacing) _ h₄ in
    (ground arith, ground arith, ground arith, ground arith, grid, grid')

-- The ends of a range that is accepted have different places.
apart-check :
    (p : Pool) (lower upper : ℤ)
    → check_ticks_internal p lower upper ≡ ok tt
    → ¬ (
        ((place upper p.tick_spacing).0 ≡ (place lower p.tick_spacing).0)
        × ((place upper p.tick_spacing).1 ≡ (place lower p.tick_spacing).1))
apart-check p lower upper h (same, same') =
    let (order, low, high, spaced, grid, grid') = check_ticks-ok p lower upper h in
    let back =
      compressed_to_tick-chunk_address lower p.tick_spacing spaced grid low (ground arith) in
    let back' =
      compressed_to_tick-chunk_address upper p.tick_spacing spaced grid' (ground arith) high in
    let equal : upper ≡ lower =
      sym back'
      ∙ ap (λ k. compressed_to_tick (compressed_of k (place upper p.tick_spacing).1) p.tick_spacing)
          same
      ∙ ap (λ i. compressed_to_tick (compressed_of (place lower p.tick_spacing).0 i) p.tick_spacing)
          same'
      ∙ back in
    let no : ltb_ℤ lower lower ≡ true = (rw equal at order) in ground arith

module _ ⦃m : Math⦄ where
  cross-lower :
      (p : Pool) (lower upper before after net : ℤ) (cs cs' : ChunkCache)
      → Sound p cs
      → check_ticks_internal p lower upper ≡ ok tt
      → cross_tick p cs lower ≡ ok (net, cs')
      → IsAcross lower before after
      → ltb_ℤ after upper ≡ ltb_ℤ before upper
      → compute_fee_growth_inside (flush cs' p) lower upper after
        ≡ compute_fee_growth_inside (flush cs p) lower upper before
  unfolding flush
  cross-lower p lower upper before after net cs cs' (coherent, (h0, h1, words)) valid crossed across
        same =
      let (tick, turned, _, read, turn, write, others) =
        cross_tick_lem p lower net cs cs' coherent crossed in
      let (u, read_u, words_u) = words upper in
      let (t, read_t, words_t) = words lower in
      let same_t : t ≡ tick = ok-injective (sym read_t ∙ read) in
      let (w0, w1) = subst HasWords same_t words_t in
      let (t0, t1) = turned_over_lem p tick turned h0 h1 (w0, w1) turn in
      let words' : HasWords turned = (omega arith, omega arith) in
      let read_u' = others upper (apart-check p lower upper valid) ∙ read_u in
      let run' =
        inside_lem (flush cs' p) lower upper after turned u write read_u' h0 h1 words' words_u in
      let run =
        inside_lem (flush cs p) lower upper before tick u read read_u h0 h1 (w0, w1) words_u in
      let g0 = p.fee_growth_global_0_x128 in
      let g1 = p.fee_growth_global_1_x128 in
      let o0 = tick.fee_growth_outside_0_x128 in
      let o1 = tick.fee_growth_outside_1_x128 in
      let low0 =
        flip-low (ltb_ℤ before lower) (ltb_ℤ after lower) g0 o0 turned.fee_growth_outside_0_x128 w0
          t0 across in
      let low1 =
        flip-low (ltb_ℤ before lower) (ltb_ℤ after lower) g1 o1 turned.fee_growth_outside_1_x128 w1
          t1 across in
      let high0 = ap (λ b. side b g0 u.fee_growth_outside_0_x128) same in
      let high1 = ap (λ b. side b g1 u.fee_growth_outside_1_x128) same in
      run' ∙ ok-inside g0 g1 low0 low1 high0 high1 ∙ sym run

  cross-upper :
      (p : Pool) (lower upper before after net : ℤ) (cs cs' : ChunkCache)
      → Sound p cs
      → check_ticks_internal p lower upper ≡ ok tt
      → cross_tick p cs upper ≡ ok (net, cs')
      → IsAcross upper before after
      → ltb_ℤ after lower ≡ ltb_ℤ before lower
      → compute_fee_growth_inside (flush cs' p) lower upper after
        ≡ compute_fee_growth_inside (flush cs p) lower upper before
  unfolding flush
  cross-upper p lower upper before after net cs cs' (coherent, (h0, h1, words)) valid crossed across
        same =
      let (tick, turned, _, read, turn, write, others) =
        cross_tick_lem p upper net cs cs' coherent crossed in
      let (l, read_l, words_l) = words lower in
      let (t, read_t, words_t) = words upper in
      let same_t : t ≡ tick = ok-injective (sym read_t ∙ read) in
      let (w0, w1) = subst HasWords same_t words_t in
      let (t0, t1) = turned_over_lem p tick turned h0 h1 (w0, w1) turn in
      let words' : HasWords turned = (omega arith, omega arith) in
      let read_l' =
        others lower (λ e. apart-check p lower upper valid (sym e.0, sym e.1)) ∙ read_l in
      let run' =
        inside_lem (flush cs' p) lower upper after l turned read_l' write h0 h1 words_l words' in
      let run =
        inside_lem (flush cs p) lower upper before l tick read_l read h0 h1 words_l (w0, w1) in
      let g0 = p.fee_growth_global_0_x128 in
      let g1 = p.fee_growth_global_1_x128 in
      let o0 = tick.fee_growth_outside_0_x128 in
      let o1 = tick.fee_growth_outside_1_x128 in
      let high0 =
        flip-high (ltb_ℤ before upper) (ltb_ℤ after upper) g0 o0 turned.fee_growth_outside_0_x128 w0
          t0 across in
      let high1 =
        flip-high (ltb_ℤ before upper) (ltb_ℤ after upper) g1 o1 turned.fee_growth_outside_1_x128 w1
          t1 across in
      let low0 =
        ap (λ (b : Bool). side (if b then false else true) g0 l.fee_growth_outside_0_x128) same in
      let low1 =
        ap (λ (b : Bool). side (if b then false else true) g1 l.fee_growth_outside_1_x128) same in
      run' ∙ ok-inside g0 g1 low0 low1 high0 high1 ∙ sym run

  -- From a pool with 256-bit fee growth, in every state that the searches, the fee growth and the
  -- crossings of one swap lead to, in any order and all through one cache of chunks: when the swap
  -- crosses one end of a range of ticks that `check_ticks_internal` accepts, so that the current tick
  -- moves from one side of that end to the other and stays on its side of the other end, the fee
  -- growth inside the range, by what a flush of the cache stores, is for both tokens after the
  -- crossing what it was before, in either direction and also where the counters have wrapped
  -- around.
  pub compute_fee_growth_inside-cross_tick :
      (p q : Pool) (lower upper before after net : ℤ) (cs cs' : ChunkCache) (at_upper : Bool)
      → HasGrowth p
      → Uses p q cs
      → check_ticks_internal q lower upper ≡ ok tt
      → cross_tick q cs (if at_upper then upper else lower) ≡ ok (net, cs')
      → IsAcross (if at_upper then upper else lower) before after
      → ltb_ℤ after (if at_upper then lower else upper)
        ≡ ltb_ℤ before (if at_upper then lower else upper)
      → compute_fee_growth_inside (flush cs' q) lower upper after
        ≡ compute_fee_growth_inside (flush cs q) lower upper before
  compute_fee_growth_inside-cross_tick p q lower upper before after net cs cs' true growth uses =
      cross-upper q lower upper before after net cs cs' (Uses-Sound p q cs growth uses)
  compute_fee_growth_inside-cross_tick p q lower upper before after net cs cs' false growth uses =
      cross-lower q lower upper before after net cs cs' (Uses-Sound p q cs growth uses)
