-- ===== src/Concentrated/Bitmap.antt =====
-- liquidity_pool_concentrated/src/bitmap.rs: words of 256 bits, as 32 bytes, the highest first.
use soroban_amm.Prelude.{
  ℕ, zero, suc, ◌+◌, ◌-◌, ◌*◌, ◌/◌, ◌%◌, ◌^◌, Bool, Option, none, some, List, [], ◌∷◌, ltb, ◌==◌,
  if◌then◌else◌,
}

-- `word[i]`; an array of the program has 32 bytes.
unfoldable pub byte_at : List ℕ → ℕ → ℕ
byte_at [] i = 0
byte_at (b ∷ bs) zero = b
byte_at (b ∷ bs) (suc i) = byte_at bs i

unfoldable pub set_byte : List ℕ → ℕ → ℕ → List ℕ
set_byte [] i v = []
set_byte (b ∷ bs) zero v = v ∷ bs
set_byte (b ∷ bs) (suc i) v = b ∷ set_byte bs i v

-- Bit `k` of a byte, as `byte & (1 << k) != 0`.
unfoldable pub has_bit : ℕ → ℕ → Bool
has_bit b zero = b % 2 == 1
has_bit b (suc k) = has_bit (b / 2) k

-- `byte | (1 << k)` and `byte & !(1 << k)`
unfoldable pub with_bit : ℕ → ℕ → Bool → ℕ
with_bit b zero value = b / 2 * 2 + (if value then 1 else 0)
with_bit b (suc k) value = with_bit (b / 2) k value * 2 + b % 2

unfoldable pub set_bit : List ℕ → ℕ → Bool → List ℕ
set_bit word bit_pos value =
    if ltb bit_pos 256
    then set_byte word (31 - bit_pos / 8)
        (with_bit (byte_at word (31 - bit_pos / 8)) (bit_pos % 8) value)
    else word

-- `7 - byte.leading_zeros()` and `byte.trailing_zeros()` of a byte that is not zero, of which the
-- model looks at `n` bits.
unfoldable pub top_bit : ℕ → ℕ → ℕ
top_bit zero b = 0
top_bit (suc n) b = let above = top_bit n (b / 2) in if b / 2 == 0 then 0 else suc above

unfoldable pub low_bit : ℕ → ℕ → ℕ
low_bit zero b = 0
low_bit (suc n) b = let above = low_bit n (b / 2) in if b % 2 == 1 then 0 else suc above

-- The bits of a byte up to `k`, and from `k` on.
unfoldable pub bits_up_to : ℕ → ℕ → ℕ
bits_up_to k b = b % 2 ^ suc k

unfoldable pub bits_from : ℕ → ℕ → ℕ
bits_from k b = b / 2 ^ k * 2 ^ k

-- The loop over the bytes below: `left` bytes remain, the byte `byte_idx` is the next.
unfoldable pub scan_down : List ℕ → ℕ → ℕ → Option ℕ
scan_down word byte_idx zero = none
scan_down word byte_idx (suc left) =
    let rest = scan_down word (suc byte_idx) left in
    if byte_at word byte_idx == 0
    then rest
    else some ((31 - byte_idx) * 8 + top_bit 8 (byte_at word byte_idx))

-- The loop over the bytes above: the byte below `bytes` is the next.
unfoldable pub scan_up : List ℕ → ℕ → Option ℕ
scan_up word zero = none
scan_up word (suc byte_idx) =
    let rest = scan_up word byte_idx in
    if byte_at word byte_idx == 0
    then rest
    else some ((31 - byte_idx) * 8 + low_bit 8 (byte_at word byte_idx))

-- `from_bit.min(255)`
unfoldable pub capped : ℕ → ℕ
capped from_bit = if ltb from_bit 255 then from_bit else 255

unfoldable pub find_prev_set_bit : List ℕ → ℕ → Option ℕ
find_prev_set_bit word from =
    let from_bit = capped from in
    let start_byte = (255 - from_bit) / 8 in
    let masked = bits_up_to (from_bit % 8) (byte_at word start_byte) in
    let rest = scan_down word (suc start_byte) (31 - start_byte) in
    if masked == 0 then rest else some ((31 - start_byte) * 8 + top_bit 8 masked)

unfoldable pub find_next_set_bit : List ℕ → ℕ → Option ℕ
find_next_set_bit word from =
    let from_bit = capped from in
    let start_byte = (255 - from_bit) / 8 in
    let masked = bits_from (from_bit % 8) (byte_at word start_byte) in
    let rest = scan_up word start_byte in
    if masked == 0 then rest else some ((31 - start_byte) * 8 + low_bit 8 masked)
