-- ===== src/Concentrated/Fees/Inside.antt =====
-- liquidity_pool_concentrated/src/contract/internal.rs: the fee growth inside a range, modulo 2 ^ 256.
use soroban_amm.Prelude.{ℕ, ◌^◌, ◌<◌, ◌≡◌, refl, ap, Bool, true, false, not, arith, if◌then◌else◌}
use soroban_amm.Host.{Math, Result, ok}
use soroban_amm.Host.Inversion.{ok-injective}
use soroban_amm.Host.Integer.{ℤ, ltb_ℤ}
use soroban_amm.Concentrated.Math.Wrapping.{sub_mod, wrapping_sub_lem}
use soroban_amm.Concentrated.State.{Pool, TickInfo, get_tick}
use soroban_amm.Concentrated.Fees.{
  growth_beyond, growth_inside, compute_fee_growth_inside, turned_over,
}

-- The growth on the far side of a tick, and inside a range, modulo 2 ^ 256.
abbrev pub side : Bool → ℕ → ℕ → ℕ
side true global outside = outside
side false global outside = sub_mod global outside

abbrev pub inside : Bool → Bool → ℕ → ℕ → ℕ → ℕ
inside above_lower below_upper global lower_outside upper_outside =
    sub_mod (sub_mod global (side above_lower global lower_outside))
      (side below_upper global upper_outside)

-- What is kept at a crossed tick is the growth on its other side.
side-turned :
    (b : Bool) (global outside : ℕ)
    → outside < 2 ^ 256
    → side b global (sub_mod global outside) ≡ side (not b) global outside
side-turned true global outside h = refl
side-turned false global outside h = omega arith

side-small : (b : Bool) (global outside : ℕ) → outside < 2 ^ 256 → side b global outside < 2 ^ 256
side-small true global outside h = h
side-small false global outside h = omega arith

-- The values of a tick are those of 256-bit numbers.
abbrev pub HasWords : TickInfo → Type 0
HasWords tick =
    (tick.fee_growth_outside_0_x128 < 2 ^ 256) × (tick.fee_growth_outside_1_x128 < 2 ^ 256)

pub ok-inside :
    {l₀ l₀' h₀ h₀' l₁ l₁' h₁ h₁' : ℕ} (g₀ g₁ : ℕ)
    → l₀' ≡ l₀
    → l₁' ≡ l₁
    → h₀' ≡ h₀
    → h₁' ≡ h₁
    → ◌≡◌ {A = Result (ℕ × ℕ)}
        (ok (sub_mod (sub_mod g₀ l₀') h₀', sub_mod (sub_mod g₁ l₁') h₁'))
        (ok (sub_mod (sub_mod g₀ l₀) h₀, sub_mod (sub_mod g₁ l₁) h₁))
ok-inside g₀ g₁ e₀ e₁ f₀ f₁ = rw (e₀, e₁, f₀, f₁) refl

pub flip-low :
    (b b' : Bool) (global outside turned : ℕ)
    → outside < 2 ^ 256
    → sub_mod global outside ≡ turned
    → b' ≡ not b
    → side (if b' then false else true) global turned
      ≡ side (if b then false else true) global outside
flip-low true b' global outside turned h t e = rw (e, ← t) refl
flip-low false b' global outside turned h t e = rw (e, ← t) (omega arith)

pub flip-high :
    (b b' : Bool) (global outside turned : ℕ)
    → outside < 2 ^ 256
    → sub_mod global outside ≡ turned
    → b' ≡ not b
    → side b' global turned ≡ side b global outside
flip-high true b' global outside turned h t e = rw (e, ← t) (omega arith)
flip-high false b' global outside turned h t e = rw (e, ← t) refl

module _ ⦃m : Math⦄ where
  growth_beyond_lem :
      (b : Bool) (global outside : ℕ)
      → global < 2 ^ 256
      → outside < 2 ^ 256
      → growth_beyond b global outside ≡ ok (side b global outside)
  unfolding growth_beyond
  growth_beyond_lem true global outside hg ho = refl
  growth_beyond_lem false global outside hg ho = wrapping_sub_lem global outside hg ho

  growth_inside_lem :
      (above_lower below_upper : Bool) (global lower_outside upper_outside : ℕ)
      → global < 2 ^ 256
      → lower_outside < 2 ^ 256
      → upper_outside < 2 ^ 256
      → growth_inside above_lower below_upper global lower_outside upper_outside
        ≡ ok (inside above_lower below_upper global lower_outside upper_outside)
  unfolding growth_inside
  growth_inside_lem above_lower below_upper global lower_outside upper_outside hg hl hu =
      let low = side above_lower global lower_outside in
      let high = side below_upper global upper_outside in
      let small = side-small below_upper global upper_outside hu in
      let below = growth_beyond_lem above_lower global lower_outside hg hl in
      let above = growth_beyond_lem below_upper global upper_outside hg hu in
      let first = wrapping_sub_lem global low hg (side-small above_lower global lower_outside hl) in
      let second = wrapping_sub_lem (sub_mod global low) high (omega arith) small in
      rw (growth_inside, below, above, first) second

  -- The growth inside a range, from the ticks at its ends.
  pub inside_lem :
      (p : Pool) (tick_lower tick_upper tick_current : ℤ) (lower upper : TickInfo)
      → get_tick p tick_lower p.tick_spacing ≡ ok lower
      → get_tick p tick_upper p.tick_spacing ≡ ok upper
      → p.fee_growth_global_0_x128 < 2 ^ 256
      → p.fee_growth_global_1_x128 < 2 ^ 256
      → HasWords lower
      → HasWords upper
      → compute_fee_growth_inside p tick_lower tick_upper tick_current
        ≡ ok (
          inside
              (if ltb_ℤ tick_current tick_lower then false else true)
              (ltb_ℤ tick_current tick_upper)
              p.fee_growth_global_0_x128
              lower.fee_growth_outside_0_x128
              upper.fee_growth_outside_0_x128,
          inside
              (if ltb_ℤ tick_current tick_lower then false else true)
              (ltb_ℤ tick_current tick_upper)
              p.fee_growth_global_1_x128
              lower.fee_growth_outside_1_x128
              upper.fee_growth_outside_1_x128,
        )
  unfolding compute_fee_growth_inside
  inside_lem p tick_lower tick_upper tick_current lower upper el eu h0 h1 (l0, l1) (u0, u1) =
      let above_lower = if ltb_ℤ tick_current tick_lower then false else true in
      let below_upper = ltb_ℤ tick_current tick_upper in
      let run_0 =
        growth_inside_lem above_lower below_upper p.fee_growth_global_0_x128
          lower.fee_growth_outside_0_x128 upper.fee_growth_outside_0_x128 h0 l0 u0 in
      let run_1 =
        growth_inside_lem above_lower below_upper p.fee_growth_global_1_x128
          lower.fee_growth_outside_1_x128 upper.fee_growth_outside_1_x128 h1 l1 u1 in
      rw (compute_fee_growth_inside, el, eu, run_0, run_1) refl

  pub turned_over_lem :
      (p : Pool) (tick turned : TickInfo)
      → p.fee_growth_global_0_x128 < 2 ^ 256
      → p.fee_growth_global_1_x128 < 2 ^ 256
      → HasWords tick
      → turned_over p tick ≡ ok turned
      → (sub_mod p.fee_growth_global_0_x128 tick.fee_growth_outside_0_x128
          ≡ turned.fee_growth_outside_0_x128)
        × (sub_mod p.fee_growth_global_1_x128 tick.fee_growth_outside_1_x128
            ≡ turned.fee_growth_outside_1_x128)
  unfolding turned_over
  turned_over_lem p tick turned h0 h1 (t0, t1) run =
      let run_0 =
        wrapping_sub_lem p.fee_growth_global_0_x128 tick.fee_growth_outside_0_x128 h0 t0 in
      let run_1 =
        wrapping_sub_lem p.fee_growth_global_1_x128 tick.fee_growth_outside_1_x128 h1 t1 in
      let same = ok-injective (rw (turned_over, run_0, run_1) at run) in
      (
        ap (λ (t : TickInfo). t.fee_growth_outside_0_x128) same,
        ap (λ (t : TickInfo). t.fee_growth_outside_1_x128) same,
      )
