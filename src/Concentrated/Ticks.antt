-- ===== src/Concentrated/Ticks.antt =====
-- liquidity_pool_concentrated/src/constants.rs, bitmap.rs and storage.rs: tick indexes, which are
-- `i32`s. The indexes of a pool lie between the bounds, so that no sum here overflows; products are
-- clamped.
pub mod Floor
use soroban_amm.Prelude.{
  ℕ, suc, ◌+◌, ◌-◌, ◌*◌, ◌/◌, ◌%◌, ◌^◌, Bool, true, false, ltb, ◌==◌, ◌&&◌, not, if◌then◌else◌,
}
use soroban_amm.Host.Integer.{ℤ, pos, negsuc, sub_ℕ, ◌+ℤ◌, ◌-ℤ◌, ltb_ℤ}

abbrev pub min_tick : ℤ
min_tick = negsuc 887271

abbrev pub max_tick : ℤ
max_tick = pos 887272

abbrev pub ticks_per_chunk : ℕ
ticks_per_chunk = 16

unfoldable pub max_liquidity_per_tick : ℕ → ℕ
max_liquidity_per_tick tick_spacing = (2 ^ 128 - 1) / (1774544 / tick_spacing + 1)

unfoldable pub eqb_ℤ : ℤ → ℤ → Bool
eqb_ℤ (pos m) (pos n) = m == n
eqb_ℤ (pos m) (negsuc n) = false
eqb_ℤ (negsuc m) (pos n) = false
eqb_ℤ (negsuc m) (negsuc n) = m == n

-- A product with a positive `i32`.
unfoldable pub times : ℤ → ℕ → ℤ
times (pos n) k = pos (n * k)
times (negsuc n) k = sub_ℕ 0 (suc n * k)

-- `/` and `%` on a dividend of either sign, which round to zero.
unfoldable pub truncated_div : ℤ → ℕ → ℤ
truncated_div (pos n) k = pos (n / k)
truncated_div (negsuc n) k = sub_ℕ 0 (suc n / k)

unfoldable pub truncated_rem : ℤ → ℕ → ℤ
truncated_rem (pos n) k = pos (n % k)
truncated_rem (negsuc n) k = sub_ℕ 0 (suc n % k)

-- `div_euclid` and `rem_euclid`; `>> 8` and `& 255` are those by 256.
unfoldable pub div_euclid : ℤ → ℕ → ℤ
div_euclid (pos n) k = pos (n / k)
div_euclid (negsuc n) k = negsuc (n / k)

unfoldable pub rem_euclid : ℤ → ℕ → ℕ
rem_euclid (pos n) k = n % k
rem_euclid (negsuc n) k = k - 1 - n % k

unfoldable pub compress_tick : ℤ → ℕ → ℤ
compress_tick tick spacing =
    let compressed = truncated_div tick spacing in
    if ltb_ℤ tick (pos 0) && not (eqb_ℤ (truncated_rem tick spacing) (pos 0))
    then compressed -ℤ pos 1
    else compressed

unfoldable pub clamp_tick : ℤ → ℤ
clamp_tick tick =
    let raised = if ltb_ℤ tick min_tick then min_tick else tick in
    if ltb_ℤ max_tick raised then max_tick else raised

-- A saturating `i32`.
unfoldable pub saturated_i32 : ℤ → ℤ
saturated_i32 (pos n) = if ltb n (2 ^ 31) then pos n else pos (2 ^ 31 - 1)
saturated_i32 (negsuc n) = if ltb n (2 ^ 31) then negsuc n else negsuc (2 ^ 31 - 1)

unfoldable pub compressed_to_tick : ℤ → ℕ → ℤ
compressed_to_tick compressed spacing = clamp_tick (saturated_i32 (times compressed spacing))

unfoldable pub chunk_address : ℤ → ℤ × ℕ
chunk_address compressed_tick =
    (div_euclid compressed_tick ticks_per_chunk, rem_euclid compressed_tick ticks_per_chunk)

unfoldable pub chunk_bitmap_position : ℤ → ℤ × ℕ
chunk_bitmap_position chunk_pos = (div_euclid chunk_pos 256, rem_euclid chunk_pos 256)

unfoldable pub word_bitmap_position : ℤ → ℤ × ℕ
word_bitmap_position chunk_bitmap_word_pos =
    (div_euclid chunk_bitmap_word_pos 256, rem_euclid chunk_bitmap_word_pos 256)

-- `(word_pos << 8) + bit`
unfoldable pub position_of : ℤ → ℕ → ℤ
position_of word_pos bit = times word_pos 256 +ℤ pos bit

-- `chunk_pos * TICKS_PER_CHUNK + slot`
unfoldable pub compressed_of : ℤ → ℕ → ℤ
compressed_of chunk_pos slot = times chunk_pos ticks_per_chunk +ℤ pos slot
