-- ===== src/Concentrated/Fees/Uses.antt =====
-- liquidity_pool_concentrated/src/contract/internal.rs: the states of the pool and of the shared cache
-- that a swap goes through.
use soroban_amm.Prelude.{
  ℕ, ◌^◌, ◌<◌, ◌≡◌, ◌∙◌, sym, ap, subst, Bool, true, false, ◌==◌, ◌||◌, Bool-cases, inl, inr, arith,
}
use soroban_amm.Host.{Math, ok, ◌>>=◌}
use soroban_amm.Host.Inversion.{bind-ok, ok-injective}
use soroban_amm.Host.Integer.{ℤ}
use soroban_amm.Stableswap.State.{get}
use soroban_amm.Concentrated.Math.{wrapping_add_u256, fee_growth_delta_x128, u256_mul_div}
use soroban_amm.Concentrated.Math.Wrapping.{add_mod, wrapping_add_lem}
use soroban_amm.Concentrated.Ticks.{eqb_ℤ}
use soroban_amm.Concentrated.State.{Pool, TickInfo, get_tick, tick_in, or_empty_chunk}
use soroban_amm.Concentrated.State.Places.{eqb_self, eq_of_eqb, place, tick_in_lem}
use soroban_amm.Concentrated.Search.{
  Found, ChunkCache, empty_cache, flush, flushed, cached, find_initialized_tick_in_word,
}
use soroban_amm.Concentrated.Search.Coherent.{
  IsCoherent, Agrees, empty-IsCoherent, find_initialized_tick-Agrees,
}
use soroban_amm.Concentrated.Fees.{cross_tick, add_growth, add_fee_growth_global}
use soroban_amm.Concentrated.Fees.Inside.{HasWords, turned_over_lem}
use soroban_amm.Concentrated.Fees.Shared.{cross_tick_lem}

-- A pool whose fee growth consists of 256-bit numbers, at every tick.
abbrev pub HasGrowth : Pool → Type 0
HasGrowth p =
    (p.fee_growth_global_0_x128 < 2 ^ 256)
    × (p.fee_growth_global_1_x128 < 2 ^ 256)
    × ((tick : ℤ) → (info : TickInfo) × (get_tick p tick p.tick_spacing ≡ ok info) × HasWords info)

-- A pool with other fee growth.
abbrev pub with_growth : Pool → ℕ → ℕ → Pool
with_growth p growth_0 growth_1 = record p {
  fee_growth_global_0_x128 = growth_0;
  fee_growth_global_1_x128 = growth_1;
}

-- The two together: what a flush would leave has 256-bit fee growth.
abbrev pub Sound : Pool → ChunkCache → Type 0
Sound p cs = IsCoherent p cs × HasGrowth (flush cs p)

module _ ⦃m : Math⦄ where
  -- The pools and caches that the searches, the fee growth and the crossings of one swap lead to,
  -- in any order, from a pool and an empty cache.
  pub data Uses (p : Pool) : Pool → ChunkCache → Type 0 where
    opened : Uses p p empty_cache
    searched :
        {q : Pool} {cs cs' : ChunkCache} (tick : ℤ) (lte : Bool) (found : Found)
        → Uses p q cs
        → find_initialized_tick_in_word q cs tick q.tick_spacing lte ≡ ok (found, cs')
        → Uses p q cs'
    grown :
        {q q' : Pool} {cs : ChunkCache} (zero_for_one : Bool) (fee_amount liquidity delta : ℕ)
        → Uses p q cs
        → add_fee_growth_global zero_for_one fee_amount liquidity q ≡ ok (delta, q')
        → Uses p q' cs
    crossed :
        {q : Pool} {cs cs' : ChunkCache} (tick net : ℤ)
        → Uses p q cs
        → cross_tick q cs tick ≡ ok (net, cs')
        → Uses p q cs'

  fee_growth_delta-fits :
      (fee_amount liquidity delta : ℕ)
      → fee_growth_delta_x128 fee_amount liquidity ≡ ok delta
      → delta < 2 ^ 256
  unfolding fee_growth_delta_x128 u256_mul_div
  fee_growth_delta-fits fee_amount liquidity delta h =
      ground (arith, m.fixed_mul_floor_u256_value fee_amount (m.shl 1 128) liquidity delta)

  wrapping_add-fits :
      (a b sum : ℕ) → a < 2 ^ 256 → b < 2 ^ 256 → wrapping_add_u256 a b ≡ ok sum → sum < 2 ^ 256
  wrapping_add-fits a b sum ha hb h =
      let same : add_mod a b ≡ sum = ok-injective (sym (wrapping_add_lem a b ha hb) ∙ h) in
      omega arith

  add_growth-with_growth :
      (zero_for_one : Bool) (delta : ℕ) (p p' : Pool)
      → delta < 2 ^ 256
      → p.fee_growth_global_0_x128 < 2 ^ 256
      → p.fee_growth_global_1_x128 < 2 ^ 256
      → add_growth zero_for_one delta p ≡ ok p'
      → (a b : ℕ) × (a < 2 ^ 256) × (b < 2 ^ 256) × (with_growth p a b ≡ p')
  unfolding add_growth
  add_growth-with_growth true delta p p' small h0 h1 h =
      let (next, run, h') = bind-ok (wrapping_add_u256 p.fee_growth_global_0_x128 delta) _ p' h in
      (
        next,
        p.fee_growth_global_1_x128,
        wrapping_add-fits p.fee_growth_global_0_x128 delta next h0 small run,
        h1,
        ok-injective h',
      )
  add_growth-with_growth false delta p p' small h0 h1 h =
      let (next, run, h') = bind-ok (wrapping_add_u256 p.fee_growth_global_1_x128 delta) _ p' h in
      (
        p.fee_growth_global_0_x128,
        next,
        h0,
        wrapping_add-fits p.fee_growth_global_1_x128 delta next h1 small run,
        ok-injective h',
      )

  -- The growth of fees changes the two counters of the pool only.
  add_fee_growth-with_growth :
      (zero_for_one : Bool) (fee_amount liquidity delta : ℕ) (p p' : Pool)
      → p.fee_growth_global_0_x128 < 2 ^ 256
      → p.fee_growth_global_1_x128 < 2 ^ 256
      → add_fee_growth_global zero_for_one fee_amount liquidity p ≡ ok (delta, p')
      → (a b : ℕ) × (a < 2 ^ 256) × (b < 2 ^ 256) × (with_growth p a b ≡ p')
  unfolding add_fee_growth_global
  add_fee_growth-with_growth zero_for_one fee_amount liquidity delta p p' h0 h1 h =
      elim (Bool-cases (fee_amount == 0 || liquidity == 0)) [
        | inl e ↦
            let run : ok (0, p) ≡ ok (delta, p') = (rw (add_fee_growth_global, e) at h) in
            (
              p.fee_growth_global_0_x128,
              p.fee_growth_global_1_x128,
              h0,
              h1,
              ap (λ (r : ℕ × Pool). r.1) (ok-injective run),
            )
        | inr e ↦
            let (d, delta_run, h₁) =
              bind-ok (fee_growth_delta_x128 fee_amount liquidity)
                (λ d. add_growth zero_for_one d p >>= λ (q : Pool). ok (d, q)) (delta, p')
                (rw (add_fee_growth_global, e) at h) in
            let (q, grow, h₂) =
              bind-ok (add_growth zero_for_one d p) (λ (q : Pool). ok (d, q)) (delta, p') h₁ in
            let same : q ≡ p' = ap (λ (r : ℕ × Pool). r.1) (ok-injective h₂) in
            let small = fee_growth_delta-fits fee_amount liquidity d delta_run in
            let (a, b, ha, hb, e') = add_growth-with_growth zero_for_one d p q small h0 h1 grow in
            (a, b, ha, hb, e' ∙ same)
      ]

  -- A search leaves every tick as it was.
  searched-Sound : (p : Pool) (cs cs' : ChunkCache) → Agrees p cs cs' → Sound p cs → Sound p cs'
  unfolding flush get_tick
  searched-Sound p cs cs' (coherent', same) (coherent, (h0, h1, ticks)) = (
    coherent',
    (
      h0,
      h1,
      λ tick.
          let (k, slot) = place tick p.tick_spacing in
          let (info, read, words) = ticks tick in
          let read' =
            tick_in_lem (flushed p cs') tick p.tick_spacing
            ∙ ap (λ c. get c slot) (same k)
            ∙ sym (tick_in_lem (flushed p cs) tick p.tick_spacing) in
          (info, read' ∙ read, words),
    ),
  )

  grown-Sound :
      (p : Pool) (cs : ChunkCache) (a b : ℕ)
      → a < 2 ^ 256
      → b < 2 ^ 256
      → Sound p cs
      → Sound (with_growth p a b) cs
  unfolding flush flushed cached get_tick tick_in
  grown-Sound p cs a b ha hb (coherent, (h0, h1, ticks)) = (coherent, (ha, hb, ticks))

  -- Two ticks in one place are read alike.
  get_tick-place :
      (p : Pool) (tick other : ℤ)
      → (place other p.tick_spacing).0 ≡ (place tick p.tick_spacing).0
      → (place other p.tick_spacing).1 ≡ (place tick p.tick_spacing).1
      → get_tick p other p.tick_spacing ≡ get_tick p tick p.tick_spacing
  unfolding get_tick
  get_tick-place p tick other e e' =
      tick_in_lem p.tick_chunks other p.tick_spacing
      ∙ ap (λ k. get (or_empty_chunk (p.tick_chunks k)) (place other p.tick_spacing).1) e
      ∙ ap (λ i. get (or_empty_chunk (p.tick_chunks (place tick p.tick_spacing).0)) i) e'
      ∙ sym (tick_in_lem p.tick_chunks tick p.tick_spacing)

  crossed-Sound :
      (p : Pool) (tick_idx net : ℤ) (cs cs' : ChunkCache)
      → Sound p cs
      → cross_tick p cs tick_idx ≡ ok (net, cs')
      → Sound p cs'
  unfolding flush
  crossed-Sound p tick_idx net cs cs' (coherent, (h0, h1, ticks)) h =
      let (tick, turned, coherent', read, turn, write, others) =
        cross_tick_lem p tick_idx net cs cs' coherent h in
      let (t, read_t, words_t) = ticks tick_idx in
      let words = subst HasWords (ok-injective (sym read_t ∙ read)) words_t in
      let (t0, t1) = turned_over_lem p tick turned h0 h1 words turn in
      let words' : HasWords turned = (omega arith, omega arith) in
      (
        coherent',
        (
          h0,
          h1,
          λ other.
              let here = place tick_idx p.tick_spacing in
              let there = place other p.tick_spacing in
              let (info, read_o, words_o) = ticks other in
              elim (Bool-cases (eqb_ℤ there.0 here.0)) [
                | inl e ↦ elim (Bool-cases (there.1 == here.1)) [
                  | inl e' ↦
                      let alike =
                        get_tick-place (flush cs' p) tick_idx other (eq_of_eqb there.0 here.0 e)
                          (ground arith) in
                      (turned, alike ∙ write, words')
                  | inr e' ↦ (info, others other (λ (same, same'). ground arith) ∙ read_o, words_o)
                ]
                | inr e ↦ (
                  info,
                  others other (λ (same, same').
                        let no : eqb_ℤ here.0 here.0 ≡ false = (rw same at e) in
                        ground (arith, eqb_self here.0, no))
                      ∙ read_o,
                  words_o,
                )
              ],
        ),
      )

  -- Every state that is reached from a pool with 256-bit fee growth is sound.
  pub Uses-Sound : (p q : Pool) (cs : ChunkCache) → HasGrowth p → Uses p q cs → Sound q cs
  unfolding flush flushed cached get_tick tick_in
  Uses-Sound p _ _ growth opened = (empty-IsCoherent p, growth)
  Uses-Sound p _ _ growth (searched {q} {cs} {cs'} tick lte found before run) =
      let sound = Uses-Sound p q cs growth before in
      let agrees =
        find_initialized_tick-Agrees q cs tick q.tick_spacing lte (found, cs') sound.0 run in
      searched-Sound q cs cs' agrees sound
  Uses-Sound p _ _ growth (grown {q} {q'} {cs} zero_for_one fee_amount liquidity delta before run) =
      let sound = Uses-Sound p q cs growth before in
      let (a, b, ha, hb, same) =
        add_fee_growth-with_growth zero_for_one fee_amount liquidity delta q q' sound.1.0 sound.1.1
          run in
      subst (λ r. Sound r cs) same (grown-Sound q cs a b ha hb sound)
  Uses-Sound p _ _ growth (crossed {q} {cs} {cs'} tick net before run) =
      crossed-Sound q tick net cs cs' (Uses-Sound p q cs growth before) run
