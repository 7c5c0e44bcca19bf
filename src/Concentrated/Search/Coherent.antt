-- ===== src/Concentrated/Search/Coherent.antt =====
-- liquidity_pool_concentrated/src/storage.rs: what reads through the cache of chunks see, and what
-- `flush` stores.
use soroban_amm.Prelude.{
  ℕ, ◌≡◌, ◌∙◌, refl, sym, ap, subst, Bool, true, Option, none, some, List, inl, inr, Bool-cases,
  Option-cases, if◌then◌else◌,
}
use soroban_amm.Host.{Math, ok, ◌>>=◌}
use soroban_amm.Host.Inversion.{bind-ok, ok-injective}
use soroban_amm.Host.Integer.{ℤ, pos, ◌+ℤ◌}
use soroban_amm.Concentrated.Ticks.{
  eqb_ℤ, chunk_bitmap_position, compressed_to_tick, compressed_of, position_of, chunk_address,
  compress_tick, saturated_i32,
}
use soroban_amm.Concentrated.State.{Pool, TickInfo, put_at, or_empty_chunk}
use soroban_amm.Concentrated.State.Places.{eq_of_eqb, put_at_self, put_at-other}
use soroban_amm.Concentrated.Search.{
  ChunkCache, empty_cache, remember, cached, get_chunk, get_or_create_chunk, flushed, Found,
  find_beyond_word, bit_beyond, find_bit, scan_chunk, scan_from, find_in_word,
  find_initialized_tick_in_word,
}

-- The chunk that a flush of the cache would leave at a position.
abbrev pub seen : Pool → ChunkCache → ℤ → List TickInfo
seen p cs k = or_empty_chunk (flushed p cs k)

-- A read through the cache gives what a flush would store.
abbrev pub IsCoherent : Pool → ChunkCache → Type 0
IsCoherent p cs = (k : ℤ) → or_empty_chunk (cached p cs k) ≡ seen p cs k

-- The second cache is coherent like the first, and a flush of it leaves the same ticks.
abbrev pub Agrees : Pool → ChunkCache → ChunkCache → Type 0
Agrees p cs cs' = IsCoherent p cs' × ((k : ℤ) → seen p cs' k ≡ seen p cs k)

pub empty-IsCoherent : (p : Pool) → IsCoherent p empty_cache
unfolding cached flushed
empty-IsCoherent p k = refl

pub cached-put :
    (p : Pool) (cs : ChunkCache) (dirty : ℤ → Bool) (k : ℤ) (chunk : List TickInfo) (j : ℤ)
    → cached p (record { cache = put_at cs.cache k (some chunk); dirty = dirty }) j
      ≡ put_at (cached p cs) k (some chunk) j
unfolding cached put_at
cached-put p cs dirty k chunk j = elim (Bool-cases (eqb_ℤ j k)) [
  | inl e ↦ rw (cached, put_at, e) refl
  | inr e ↦ rw (cached, put_at, e) refl
]

-- A chunk that is remembered as it was read changes nothing that is read.
cached-remember :
    (p : Pool) (cs : ChunkCache) (k : ℤ) (chunk : List TickInfo)
    → chunk ≡ or_empty_chunk (cached p cs k)
    → (j : ℤ)
    → or_empty_chunk (cached p (remember k (some chunk) cs) j) ≡ or_empty_chunk (cached p cs j)
unfolding remember or_empty_chunk
cached-remember p cs k chunk read j =
    ap or_empty_chunk (cached-put p cs cs.dirty k chunk j) ∙ elim (Bool-cases (eqb_ℤ j k)) [
      | inl e ↦
          let same = eq_of_eqb j k e in rw (same, put_at_self (cached p cs) k (some chunk)) read
      | inr e ↦ ap or_empty_chunk (put_at-other (cached p cs) k j (some chunk) e)
    ]

seen-remember :
    (p : Pool) (cs : ChunkCache) (k : ℤ) (chunk : List TickInfo)
    → chunk ≡ or_empty_chunk (cached p cs k)
    → (j : ℤ) → seen p (remember k (some chunk) cs) j ≡ seen p cs j
unfolding flushed remember
seen-remember p cs k chunk read j = elim (Bool-cases (cs.dirty j)) [
  | inl e ↦ rw (flushed, e) (cached-remember p cs k chunk read j)
  | inr e ↦ rw (flushed, e) refl
]

pub Agrees-self : (p : Pool) (cs : ChunkCache) → IsCoherent p cs → Agrees p cs cs
Agrees-self p cs coherent = (coherent, λ k. refl)

pub Agrees-trans :
    (p : Pool) (cs cs' cs'' : ChunkCache) → Agrees p cs cs' → Agrees p cs' cs'' → Agrees p cs cs''
Agrees-trans p cs cs' cs'' (c, same) (c', same') = (c', λ k. same' k ∙ same k)

remember-some-Agrees :
    (p : Pool) (cs : ChunkCache) (k : ℤ) (chunk : List TickInfo)
    → IsCoherent p cs
    → chunk ≡ or_empty_chunk (cached p cs k)
    → Agrees p cs (remember k (some chunk) cs)
remember-some-Agrees p cs k chunk coherent read =
    let same = seen-remember p cs k chunk read in
    (λ j. cached-remember p cs k chunk read j ∙ coherent j ∙ sym (same j), same)

pub remember-Agrees :
    (p : Pool) (cs : ChunkCache) (k : ℤ) (chunk : Option (List TickInfo))
    → IsCoherent p cs
    → cached p cs k ≡ chunk
    → Agrees p cs (remember k chunk cs)
unfolding remember or_empty_chunk
remember-Agrees p cs k none coherent read = Agrees-self p cs coherent
remember-Agrees p cs k (some chunk) coherent read =
    remember-some-Agrees p cs k chunk coherent (sym (ap or_empty_chunk read))

pub get_or_create_chunk-Agrees :
    (p : Pool) (cs : ChunkCache) (k : ℤ)
    → IsCoherent p cs
    → Agrees p cs (get_or_create_chunk p cs k).1
unfolding get_or_create_chunk
get_or_create_chunk-Agrees p cs k coherent =
    remember-some-Agrees p cs k (or_empty_chunk (cached p cs k)) coherent refl

module _ ⦃m : Math⦄ where
  -- The end of the search in a chunk: the tick in a slot of it, or one beyond this word.
  beyond-kept :
      (p : Pool) (word : ℤ) (spacing : ℕ) (lte : Bool) (cs : ChunkCache) (r : Found × ChunkCache)
      → (find_beyond_word p word spacing lte >>= λ beyond. ok (beyond, cs)) ≡ ok r
      → cs ≡ r.1
  beyond-kept p word spacing lte cs r h =
      let (beyond, _, result) =
        bind-ok (find_beyond_word p word spacing lte) (λ (b : Found). ok (b, cs)) r h in
      ap (λ (x : Found × ChunkCache). x.1) (ok-injective result)

  -- The cache after the search in a word is the one before, or has one more chunk read.
  find_in_word-Agrees :
      (p : Pool) (cs : ChunkCache) (chunk_pos : ℤ) (spacing : ℕ) (lte : Bool)
      (r : Found × ChunkCache)
      → IsCoherent p cs
      → find_in_word p cs chunk_pos spacing lte ≡ ok r
      → Agrees p cs r.1
  unfolding find_in_word
  find_in_word-Agrees p cs chunk_pos spacing lte r coherent h =
      let (word_pos, bit_pos) = chunk_bitmap_position chunk_pos in
      let found : Option ℕ = (elim (bit_beyond lte bit_pos) [
        | some bit ↦ find_bit lte (m.to_be_bytes (p.chunk_bitmap word_pos)) bit
        | none ↦ none
      ]) in
      elim (Option-cases found) [
        | inl e ↦
            subst (Agrees p cs)
              (beyond-kept p word_pos spacing lte cs r (rw (find_in_word, e) at h))
              (Agrees-self p cs coherent)
        | inr (bit, e) ↦
            let pos = position_of word_pos bit in
            let (chunk, cs') = get_or_create_chunk p cs pos in
            let (slot, _, h₁) =
              bind-ok (scan_chunk lte chunk)
                (λ slot. elim slot [
                  | some s ↦ ok ((compressed_to_tick (compressed_of pos s) spacing, true), cs')
                  | none ↦ find_beyond_word p word_pos spacing lte >>= λ (beyond : Found).
                      ok (beyond, cs')
                ])
                r (rw (find_in_word, e) at h) in
            let same : cs' ≡ r.1 = (elim (Option-cases slot) [
              | inl e' ↦ beyond-kept p word_pos spacing lte cs' r (rw e' at h₁)
              | inr (s, e') ↦
                  let h₂ : ok ((compressed_to_tick (compressed_of pos s) spacing, true), cs')
                      ≡ ok r =
                    (rw e' at h₁) in
                  ap (λ (x : Found × ChunkCache). x.1) (ok-injective h₂)
            ]) in
            subst (Agrees p cs) same (get_or_create_chunk-Agrees p cs pos coherent)
      ]

  -- A search leaves a coherent cache, and the ticks that a flush would leave.
  pub find_initialized_tick-Agrees :
      (p : Pool) (cs : ChunkCache) (tick : ℤ) (spacing : ℕ) (lte : Bool) (r : Found × ChunkCache)
      → IsCoherent p cs
      → find_initialized_tick_in_word p cs tick spacing lte ≡ ok r
      → Agrees p cs r.1
  unfolding find_initialized_tick_in_word get_chunk
  find_initialized_tick-Agrees p cs tick spacing lte r coherent h =
      let compressed = compress_tick tick spacing in
      let start = if lte then compressed else saturated_i32 (compressed +ℤ pos 1) in
      let (chunk_pos, slot) = chunk_address start in
      let chunk = cached p cs chunk_pos in
      let cs' = remember chunk_pos chunk cs in
      let read = remember-Agrees p cs chunk_pos chunk coherent refl in
      let (found, _, h₁) =
        bind-ok (elim chunk [ some c ↦ scan_from lte c slot | none ↦ ok none ])
          (λ found. elim found [
            | some s ↦ ok ((compressed_to_tick (compressed_of chunk_pos s) spacing, true), cs')
            | none ↦ find_in_word p cs' chunk_pos spacing lte
          ])
          r h in
      elim (Option-cases found) [
        | inl e ↦
            Agrees-trans p cs cs' r.1 read
              (find_in_word-Agrees p cs' chunk_pos spacing lte r read.0 (rw e at h₁))
        | inr (s, e) ↦
            let h₂ : ok ((compressed_to_tick (compressed_of chunk_pos s) spacing, true), cs')
                ≡ ok r =
              (rw e at h₁) in
            subst (Agrees p cs) (ap (λ (x : Found × ChunkCache). x.1) (ok-injective h₂)) read
      ]
