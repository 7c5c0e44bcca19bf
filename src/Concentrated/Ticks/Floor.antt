-- ===== src/Concentrated/Ticks/Floor.antt =====
-- liquidity_pool_concentrated/src/bitmap.rs and storage.rs: the compressed index of a tick, and its
-- place in the chunks and the bitmaps.
use soroban_amm.Prelude.{
  ℕ, zero, suc, refl, ◌+◌, ◌-◌, ◌*◌, ◌/◌, ◌%◌, ◌<◌, ◌≡◌, ap, arith, Bool, true, false, not, ◌&&◌,
}
use soroban_amm.Host.Integer.{
  ℤ, pos, negsuc, ◌+ℤ◌, sub_ℕ, ltb_ℤ, pos_part, neg_part, +ℤ_parts, eq_of_parts,
}
use soroban_amm.Concentrated.Ticks.{
  compress_tick, truncated_div, truncated_rem, eqb_ℤ, div_euclid, rem_euclid, times, position_of,
  compressed_of, chunk_address, compressed_to_tick, clamp_tick, saturated_i32, min_tick, max_tick,
  ticks_per_chunk, chunk_bitmap_position,
}

div_split : (n k : ℕ) → 0 < k → (n ≡ n / k * k + n % k) × (n % k < k)
div_split n k h = grind arith

neg_parts : (a : ℕ) → (pos_part (sub_ℕ 0 a) ≡ 0) × (neg_part (sub_ℕ 0 a) ≡ a)
neg_parts a = ground arith

-- Back from the quotient and the rest.
pub times-div_euclid :
    (z : ℤ) (k : ℕ) → 0 < k → times (div_euclid z k) k +ℤ pos (rem_euclid z k) ≡ z
unfolding times div_euclid rem_euclid
times-div_euclid (pos n) k h =
    let low = n / k * k in
    let sum = +ℤ_parts (pos low) (pos (n % k)) in
    eq_of_parts (pos low +ℤ pos (n % k)) (pos n) (omega (arith, sum, div_split n k h))
times-div_euclid (negsuc n) k h =
    let q = n / k in
    let r = k - 1 - n % k in
    let low = sub_ℕ 0 (suc q * k) in
    let (split, lt) = div_split n k h in
    let e : suc q * k ≡ n + 1 + r = omega arith in
    let (none, all) = neg_parts (suc q * k) in
    let sum = +ℤ_parts low (pos r) in eq_of_parts (low +ℤ pos r) (negsuc n) (omega arith)

times_neg : (j k n : ℕ) → suc n ≡ j * k → times (sub_ℕ 0 j) k ≡ negsuc n
unfolding times
times_neg zero k n h = ground arith
times_neg (suc j) k n h = ground arith

and_false : (b : Bool) → b && not (eqb_ℤ (pos 0) (pos 0)) ≡ false
unfolding eqb_ℤ
and_false true = refl
and_false false = refl

compress-exact :
    (tick : ℤ) (k : ℕ) → truncated_rem tick k ≡ pos 0 → compress_tick tick k ≡ truncated_div tick k
unfolding compress_tick
compress-exact tick k e = rw (compress_tick, e, and_false (ltb_ℤ tick (pos 0))) refl

times-truncated :
    (tick : ℤ) (k : ℕ)
    → 0 < k
    → truncated_rem tick k ≡ pos 0
    → times (truncated_div tick k) k ≡ tick
unfolding truncated_div truncated_rem times
times-truncated (pos n) k h e =
    let even : n % k ≡ 0 = ap (λ (z : ℤ). pos_part z) e in ap pos (omega (arith, div_split n k h))
times-truncated (negsuc n) k h e =
    let even : suc n % k ≡ 0 = omega (arith, neg_parts (suc n % k), ap (λ (z : ℤ). neg_part z) e) in
    let whole : suc n ≡ suc n / k * k = omega (arith, div_split (suc n) k h) in
    times_neg (suc n / k) k n whole

saturated-id : (z : ℤ) → ltb_ℤ z min_tick ≡ false → ltb_ℤ max_tick z ≡ false → saturated_i32 z ≡ z
unfolding saturated_i32
saturated-id (pos n) low high = ground arith
saturated-id (negsuc n) low high = ground arith

-- A tick within the bounds and on the grid of a positive spacing is found again from its place:
-- the chunk, and the slot in the chunk, of its compressed index lead back to the tick.
pub compressed_to_tick-chunk_address :
    (tick : ℤ) (spacing : ℕ)
    → 0 < spacing
    → truncated_rem tick spacing ≡ pos 0
    → ltb_ℤ tick min_tick ≡ false
    → ltb_ℤ max_tick tick ≡ false
    → compressed_to_tick
        (compressed_of
          (chunk_address (compress_tick tick spacing)).0
          (chunk_address (compress_tick tick spacing)).1)
        spacing
      ≡ tick
unfolding compressed_to_tick clamp_tick compressed_of chunk_address
compressed_to_tick-chunk_address tick spacing pos_spacing on_grid low high =
    let place = times-div_euclid (compress_tick tick spacing) ticks_per_chunk (omega arith) in
    let back = compress-exact tick spacing on_grid in
    let whole = times-truncated tick spacing pos_spacing on_grid in
    let kept = saturated-id tick low high in
    rw (compressed_to_tick, compressed_of, chunk_address, place, back, whole, kept, low, high) refl

-- The same for the position of a chunk in its word of the bitmap, and of a word in the next level.
pub position_of-chunk_bitmap_position :
    (chunk_pos : ℤ)
    → position_of (chunk_bitmap_position chunk_pos).0 (chunk_bitmap_position chunk_pos).1
      ≡ chunk_pos
unfolding position_of chunk_bitmap_position
position_of-chunk_bitmap_position chunk_pos = times-div_euclid chunk_pos 256 (omega arith)
