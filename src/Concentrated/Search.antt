-- ===== src/Concentrated/Search.antt =====
-- liquidity_pool_concentrated/src/contract/internal.rs: the chunks of ticks, their two levels of
-- bitmaps, and the search for an initialized tick. The cache of `storage.rs` is a state of its own.
pub mod Coherent
use soroban_amm.Prelude.{
  ℕ, zero, suc, ◌+◌, ◌-◌, Bool, true, false, ◌&&◌, not, Option, none, some, List, [], ◌∷◌, ltb,
  ◌==◌, if◌then◌else◌,
}
use soroban_amm.Host.{Math, Result, ok, ◌>>=◌}
use soroban_amm.Host.Numbers.{from_be_bytes}
use soroban_amm.Host.Integer.{ℤ, pos, ◌+ℤ◌, ◌-ℤ◌}
use soroban_amm.Stableswap.State.{get}
use soroban_amm.Concentrated.Ticks.{
  eqb_ℤ, compress_tick, chunk_address, min_tick, max_tick, ticks_per_chunk, saturated_i32,
  compressed_to_tick, compressed_of, position_of, chunk_bitmap_position, word_bitmap_position,
}
use soroban_amm.Concentrated.Bitmap.{set_bit, find_prev_set_bit, find_next_set_bit}
use soroban_amm.Concentrated.State.{
  Pool, TickInfo, get_or_create_tick_chunk, or_empty_chunk, put_at, tick_in,
}

-- `word == [0u8; 32]`
unfoldable pub is_zero : List ℕ → Bool
is_zero [] = true
is_zero (b ∷ bs) = b == 0 && is_zero bs

-- Whether the tick of a slot is initialized.
unfoldable pub is_init : List TickInfo → ℕ → Result Bool
is_init chunk slot = do tick ← get chunk slot; ok (ltb 0 tick.liquidity_gross)

-- The slots below `slot`, the highest first: the loops that run downwards.
unfoldable pub scan_below : List TickInfo → ℕ → Result (Option ℕ)
scan_below chunk zero = ok none
scan_below chunk (suc slot) = do
  found ← is_init chunk slot
  elim found [ true ↦ ok (some slot) | false ↦ scan_below chunk slot ]

-- `left` slots from `slot` on: the loops that run upwards.
unfoldable pub scan_above : List TickInfo → ℕ → ℕ → Result (Option ℕ)
scan_above chunk slot zero = ok none
scan_above chunk slot (suc left) = do
  found ← is_init chunk slot
  elim found [ true ↦ ok (some slot) | false ↦ scan_above chunk (suc slot) left ]

unfoldable pub scan_chunk_highest_init : List TickInfo → Result (Option ℕ)
scan_chunk_highest_init chunk = scan_below chunk ticks_per_chunk

unfoldable pub scan_chunk_lowest_init : List TickInfo → Result (Option ℕ)
scan_chunk_lowest_init chunk = scan_above chunk 0 ticks_per_chunk

unfoldable pub chunk_has_initialized : List TickInfo → Result Bool
chunk_has_initialized chunk = do
  found ← scan_chunk_lowest_init chunk
  elim found [ some slot ↦ ok true | none ↦ ok false ]

-- `ChunkCache`
pub record ChunkCache : Type 0 where
  pub cache : ℤ → Option (List TickInfo)
  pub dirty : ℤ → Bool

abbrev pub empty_cache : ChunkCache
empty_cache = record { cache = λ k. none; dirty = λ k. false }

unfoldable pub remember : ℤ → Option (List TickInfo) → ChunkCache → ChunkCache
remember chunk_pos none cs = cs
remember chunk_pos (some chunk) cs = record cs { cache = put_at cs.cache chunk_pos (some chunk) }

-- What a read of the cache gives.
unfoldable pub cached : Pool → ChunkCache → ℤ → Option (List TickInfo)
cached p cs chunk_pos = elim (cs.cache chunk_pos) [
  | some chunk ↦ some chunk
  | none ↦ p.tick_chunks chunk_pos
]

unfoldable pub get_chunk : Pool → ChunkCache → ℤ → Option (List TickInfo) × ChunkCache
get_chunk p cs chunk_pos = let chunk = cached p cs chunk_pos in (chunk, remember chunk_pos chunk cs)

unfoldable pub get_or_create_chunk : Pool → ChunkCache → ℤ → List TickInfo × ChunkCache
get_or_create_chunk p cs chunk_pos =
    let chunk = or_empty_chunk (cached p cs chunk_pos) in
    (chunk, remember chunk_pos (some chunk) cs)

unfoldable pub set_chunk : ℤ → List TickInfo → ChunkCache → ChunkCache
set_chunk chunk_pos chunk cs = record {
  cache = put_at cs.cache chunk_pos (some chunk);
  dirty = put_at cs.dirty chunk_pos true;
}

-- `ChunkCache::get_tick`, and the cache after it.
unfoldable pub get_cached_tick : Pool → ChunkCache → ℤ → ℕ → Result (TickInfo × ChunkCache)
get_cached_tick p cs tick spacing = do
  info ← tick_in (cached p cs) tick spacing
  let (chunk_pos, slot) = chunk_address (compress_tick tick spacing)
  ok (info, remember chunk_pos (cached p cs chunk_pos) cs)

unfoldable pub flushed : Pool → ChunkCache → ℤ → Option (List TickInfo)
flushed p cs chunk_pos =
    if cs.dirty chunk_pos then cached p cs chunk_pos else p.tick_chunks chunk_pos

unfoldable pub flush : ChunkCache → Pool → Pool
flush cs p = record p { tick_chunks = flushed p cs }

-- The neighbour of a position in the direction of a search.
unfoldable pub next_to : Bool → ℤ → ℤ
next_to true position = position -ℤ pos 1
next_to false position = position +ℤ pos 1

-- The search in a word, in the direction of `lte`, from a bit on.
unfoldable pub find_bit : Bool → List ℕ → ℕ → Option ℕ
find_bit true word from = find_prev_set_bit word from
find_bit false word from = find_next_set_bit word from

-- A tick, and whether it is initialized.
abbrev pub Found : Type 0
Found = ℤ × Bool

-- The end of a word where a search that enters it starts.
unfoldable pub first_bit : Bool → ℕ
first_bit true = 255
first_bit false = 0

-- The bit next to `bit` in the direction of `lte`, if the word has one.
unfoldable pub bit_beyond : Bool → ℕ → Option ℕ
bit_beyond true bit = if bit == 0 then none else some (bit - 1)
bit_beyond false bit = if ltb bit 255 then some (bit + 1) else none

unfoldable pub no_tick : Bool → ℤ
no_tick highest = if highest then min_tick else max_tick

module _ ⦃m : Math⦄ where
  unfoldable pub update_chunk_bitmap_bit : ℤ → Bool → Pool → Pool
  update_chunk_bitmap_bit chunk_pos has_initialized p =
      let (word_pos, bit_pos) = chunk_bitmap_position chunk_pos in
      let word = m.to_be_bytes (p.chunk_bitmap word_pos) in
      let word' = set_bit word bit_pos has_initialized in
      let (l2_word_pos, l2_bit_pos) = word_bitmap_position word_pos in
      let l2_word = m.to_be_bytes (p.word_bitmap l2_word_pos) in
      let l2_word' = set_bit l2_word l2_bit_pos (not (is_zero word')) in
      let unchanged = (is_zero word && is_zero word') in
      let both_set = (not (is_zero word) && not (is_zero word')) in
      let chunk_bitmap' = put_at p.chunk_bitmap word_pos (from_be_bytes 0 word') in
      let word_bitmap' = put_at p.word_bitmap l2_word_pos (from_be_bytes 0 l2_word') in
      record p {
        chunk_bitmap = chunk_bitmap';
        word_bitmap =
            if unchanged then p.word_bitmap else if both_set then p.word_bitmap else word_bitmap';
      }

  -- The closures `search` and `search_bit`.
  unfoldable pub search_word : Pool → Bool → ℤ → ℕ → Option ℤ
  search_word p lte l2_pos from = elim (find_bit lte (m.to_be_bytes (p.word_bitmap l2_pos)) from) [
    | some bit ↦ some (position_of l2_pos bit)
    | none ↦ none
  ]

  unfoldable pub find_adjacent_bitmap_word : Pool → ℤ → Bool → Option ℤ
  find_adjacent_bitmap_word p current_word_pos lte =
      let (l2_pos, l2_bit) = word_bitmap_position current_word_pos in
      let beyond = search_word p lte (next_to lte l2_pos) (first_bit lte) in
      let adjacent : Option ℤ = (elim (bit_beyond lte l2_bit) [
        | some bit ↦ search_word p lte l2_pos bit
        | none ↦ none
      ]) in
      elim adjacent [ some found ↦ some found | none ↦ beyond ]

  unfoldable pub scan_chunk : Bool → List TickInfo → Result (Option ℕ)
  scan_chunk true chunk = scan_chunk_highest_init chunk
  scan_chunk false chunk = scan_chunk_lowest_init chunk

  unfoldable pub extreme_tick_in_bitmap_word : Pool → ℤ → ℕ → Bool → Result ℤ
  extreme_tick_in_bitmap_word p word_pos spacing highest =
      elim (find_bit highest (m.to_be_bytes (p.chunk_bitmap word_pos)) (first_bit highest)) [
        | none ↦ ok (no_tick highest)
        | some bit ↦ do
          let chunk_pos = position_of word_pos bit
          slot ← scan_chunk highest (get_or_create_tick_chunk p chunk_pos)
          elim slot [
            | some s ↦ ok (compressed_to_tick (compressed_of chunk_pos s) spacing)
            | none ↦ ok (no_tick highest)
          ]
      ]

  unfoldable pub find_next_global_tick : Pool → ℤ → ℕ → Bool → Result ℤ
  find_next_global_tick p from_tick spacing lte = do
    let (chunk_pos, slot) = chunk_address (compress_tick from_tick spacing)
    let (word_pos, bit) = chunk_bitmap_position chunk_pos
    tick ← extreme_tick_in_bitmap_word p word_pos spacing lte
    elim (eqb_ℤ tick (no_tick lte)) [
      | false ↦ ok tick
      | true ↦ elim (find_adjacent_bitmap_word p word_pos lte) [
        | some found_word_pos ↦ extreme_tick_in_bitmap_word p found_word_pos spacing lte
        | none ↦ ok (no_tick lte)
      ]
    ]

  -- The third level of `find_initialized_tick_in_word`: other words, and the end of this one.
  unfoldable pub find_beyond_word : Pool → ℤ → ℕ → Bool → Result Found
  find_beyond_word p bm_word_pos spacing lte = do
    let boundary =
        compressed_of (position_of bm_word_pos (if lte then 0 else 255)) (if lte then 0 else 15)
    let at_boundary : Found = (compressed_to_tick boundary spacing, false)
    elim (find_adjacent_bitmap_word p bm_word_pos lte) [
      | none ↦ ok at_boundary
      | some target_word ↦ do
        tick ← extreme_tick_in_bitmap_word p target_word spacing lte
        ok (if eqb_ℤ tick (no_tick lte) then at_boundary else (tick, true))
    ]

  -- The second level: the other chunks of this word.
  unfoldable pub find_in_word : Pool → ChunkCache → ℤ → ℕ → Bool → Result (Found × ChunkCache)
  find_in_word p cs chunk_pos spacing lte = do
    let (bm_word_pos, bm_bit_pos) = chunk_bitmap_position chunk_pos
    let word = m.to_be_bytes (p.chunk_bitmap bm_word_pos)
    let found : Option ℕ = (elim (bit_beyond lte bm_bit_pos) [
      | some bit ↦ find_bit lte word bit
      | none ↦ none
    ])
    elim found [
      | none ↦ do beyond ← find_beyond_word p bm_word_pos spacing lte; ok (beyond, cs)
      | some found_bit ↦ do
        let found_chunk_pos = position_of bm_word_pos found_bit
        let (chunk, cs') = get_or_create_chunk p cs found_chunk_pos
        slot ← scan_chunk lte chunk
        elim slot [
          | some s ↦ ok ((compressed_to_tick (compressed_of found_chunk_pos s) spacing, true), cs')
          | none ↦ do beyond ← find_beyond_word p bm_word_pos spacing lte; ok (beyond, cs')
        ]
    ]

  -- The first level: the slots of this chunk, from this one on.
  unfoldable pub scan_from : Bool → List TickInfo → ℕ → Result (Option ℕ)
  scan_from true chunk slot = scan_below chunk (suc slot)
  scan_from false chunk slot = scan_above chunk slot (ticks_per_chunk - slot)

  unfoldable pub find_initialized_tick_in_word :
      Pool → ChunkCache → ℤ → ℕ → Bool → Result (Found × ChunkCache)
  find_initialized_tick_in_word p cs tick spacing lte = do
    let compressed = compress_tick tick spacing
    let start = if lte then compressed else saturated_i32 (compressed +ℤ pos 1)
    let (chunk_pos, slot) = chunk_address start
    let (chunk, cs') = get_chunk p cs chunk_pos
    found ← elim chunk [ some c ↦ scan_from lte c slot | none ↦ ok none ]
    elim found [
      | some s ↦ ok ((compressed_to_tick (compressed_of chunk_pos s) spacing, true), cs')
      | none ↦ find_in_word p cs' chunk_pos spacing lte
    ]
