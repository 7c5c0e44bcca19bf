-- ===== src/Concentrated/Fees/Shared.antt =====
-- liquidity_pool_concentrated/src/contract/internal.rs and storage.rs: a tick that is crossed through
-- the cache that a whole swap shares.
use soroban_amm.Prelude.{
  ◌≡◌, ◌∙◌, refl, sym, ap, subst, fun_ext, true, some, List, Bool-cases, inl, inr, if◌then◌else◌,
}
use soroban_amm.Host.{Math, ok}
use soroban_amm.Host.Inversion.{bind-ok, ok-injective}
use soroban_amm.Host.Integer.{ℤ}
use soroban_amm.Stableswap.State.{get, set}
use soroban_amm.Concentrated.Ticks.{eqb_ℤ}
use soroban_amm.Concentrated.State.{Pool, TickInfo, put_at, tick_in, get_tick, or_empty_chunk}
use soroban_amm.Concentrated.State.Places.{
  eq_of_eqb, place, put_at_self, put_at-other, tick_in_lem, tick_in-put_at, tick_in-put_at_other,
}
use soroban_amm.Concentrated.Search.{
  ChunkCache, flush, get_or_create_chunk, set_chunk, remember, cached, flushed,
}
use soroban_amm.Concentrated.Search.Coherent.{seen, IsCoherent, cached-put}
use soroban_amm.Concentrated.Fees.{turned_over, cross_tick}

-- The cache after a chunk was read and written through it.
abbrev written : ChunkCache → ℤ → List TickInfo → List TickInfo → ChunkCache
written cs k chunk chunk' = set_chunk k chunk' (remember k (some chunk) cs)

cached-written :
    (p : Pool) (cs : ChunkCache) (k : ℤ) (chunk chunk' : List TickInfo) (j : ℤ)
    → cached p (written cs k chunk chunk') j ≡ put_at (cached p cs) k (some chunk') j
unfolding set_chunk remember put_at
cached-written p cs k chunk chunk' j =
    cached-put p (remember k (some chunk) cs) (put_at cs.dirty k true) k chunk' j
    ∙ elim (Bool-cases (eqb_ℤ j k)) [
      | inl e ↦ rw e refl
      | inr e ↦
          rw e (cached-put p cs cs.dirty k chunk j ∙ put_at-other (cached p cs) k j (some chunk) e)
    ]

flushed-written :
    (p : Pool) (cs : ChunkCache) (k : ℤ) (chunk chunk' : List TickInfo) (j : ℤ)
    → flushed p (written cs k chunk chunk') j ≡ put_at (flushed p cs) k (some chunk') j
unfolding flushed set_chunk remember put_at
flushed-written p cs k chunk chunk' j =
    let read = cached-written p cs k chunk chunk' j in
    elim (Bool-cases (eqb_ℤ j k)) [
      | inl e ↦
          let read' : cached p (written cs k chunk chunk') j ≡ some chunk' =
            (rw (put_at, e) at read) in
          rw (flushed, e) read'
      | inr e ↦
          let read' : cached p (written cs k chunk chunk') j ≡ cached p cs j =
            (rw (put_at, e) at read) in
          rw (flushed, e) (ap (λ c. if cs.dirty j then c else p.tick_chunks j) read')
    ]

written-IsCoherent :
    (p : Pool) (cs : ChunkCache) (k : ℤ) (chunk chunk' : List TickInfo)
    → IsCoherent p cs
    → IsCoherent p (written cs k chunk chunk')
written-IsCoherent p cs k chunk chunk' coherent j =
    ap or_empty_chunk (cached-written p cs k chunk chunk' j)
    ∙ elim (Bool-cases (eqb_ℤ j k)) [
      | inl e ↦
          let same = eq_of_eqb j k e in
          rw same (
            ap or_empty_chunk (
              put_at_self (cached p cs) k (some chunk')
              ∙ sym (put_at_self (flushed p cs) k (some chunk'))))
      | inr e ↦
          ap or_empty_chunk (put_at-other (cached p cs) k j (some chunk') e)
          ∙ coherent j
          ∙ ap or_empty_chunk (sym (put_at-other (flushed p cs) k j (some chunk') e))
    ]
    ∙ sym (ap or_empty_chunk (flushed-written p cs k chunk chunk' j))

module _ ⦃m : Math⦄ where
  -- A tick that is crossed through a coherent cache: the cache stays coherent, the tick is turned
  -- over in what a flush stores, and no other tick changes there.
  pub cross_tick_lem :
      (p : Pool) (tick_idx net : ℤ) (cs cs' : ChunkCache)
      → IsCoherent p cs
      → cross_tick p cs tick_idx ≡ ok (net, cs')
      → (tick turned : TickInfo) × IsCoherent p cs'
        × (get_tick (flush cs p) tick_idx p.tick_spacing ≡ ok tick)
        × (turned_over p tick ≡ ok turned)
        × (get_tick (flush cs' p) tick_idx p.tick_spacing ≡ ok turned)
        × ((other : ℤ)
            → ¬ (
                ((place other p.tick_spacing).0 ≡ (place tick_idx p.tick_spacing).0)
                × ((place other p.tick_spacing).1 ≡ (place tick_idx p.tick_spacing).1))
            → get_tick (flush cs' p) other p.tick_spacing
              ≡ get_tick (flush cs p) other p.tick_spacing)
  unfolding cross_tick get_or_create_chunk get_tick flush
  cross_tick_lem p tick_idx net cs cs' coherent h =
      let (k, slot) = place tick_idx p.tick_spacing in
      let chunk = or_empty_chunk (cached p cs k) in
      let (tick, read, h₁) = bind-ok (get chunk slot) _ (net, cs') h in
      let (turned, turn, h₂) = bind-ok (turned_over p tick) _ (net, cs') h₁ in
      let (chunk', wrote, h₃) = bind-ok (set chunk slot turned) _ (net, cs') h₂ in
      let result : written cs k chunk chunk' ≡ cs' =
        ap (λ (r : ℤ × ChunkCache). r.1) (ok-injective h₃) in
      let chunks : flushed p cs' ≡ put_at (flushed p cs) k (some chunk') =
        ap (λ (c : ChunkCache). flushed p c) (sym result)
        ∙ fun_ext (λ j. flushed-written p cs k chunk chunk' j) in
      let same = λ (t : ℤ). ap (λ f. tick_in f t p.tick_spacing) chunks in
      let wrote' : set (seen p cs k) slot turned ≡ ok chunk' =
        ap (λ c. set c slot turned) (sym (coherent k)) ∙ wrote in
      (
        tick,
        turned,
        subst (IsCoherent p) result (written-IsCoherent p cs k chunk chunk' coherent),
        tick_in_lem (flushed p cs) tick_idx p.tick_spacing
            ∙ ap (λ c. get c slot) (sym (coherent k))
            ∙ read,
        turn,
        same tick_idx ∙ tick_in-put_at (flushed p cs) tick_idx p.tick_spacing turned chunk' wrote',
        λ other apart.
            same other
            ∙ tick_in-put_at_other (flushed p cs) tick_idx other p.tick_spacing turned chunk' wrote'
                apart,
      )
