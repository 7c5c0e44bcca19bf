-- ===== src/Concentrated/U512.antt =====
-- liquidity_pool_concentrated/src/u512.rs: `a * b / d` on 256-bit numbers through 512 bits.
pub mod Product
pub mod Division
pub mod Exactness
mod Tests
use soroban_amm.Prelude.{
  ℕ, ◌+◌, ◌-◌, ◌/◌, ◌%◌, ◌^◌, ◌&&◌, ◌||◌, Bool, true, false, not, List, [], ◌∷◌, ◌++◌, ltb, leb,
  ◌==◌, if◌then◌else◌,
}
use soroban_amm.Host.{Math, Result, ok, ◌>>=◌}

-- `U256::MAX`
abbrev pub max_u256 : ℕ
max_u256 = 2 ^ 256 - 1

-- `(byte >> bit_in_byte) & 1` from bit 7 to bit 0 of each byte.
unfoldable pub bits_of : List ℕ → List ℕ
bits_of [] = []
bits_of (b ∷ bs) =
    (b / 128 % 2)
    ∷ (b / 64 % 2)
    ∷ (b / 32 % 2)
    ∷ (b / 16 % 2)
    ∷ (b / 8 % 2)
    ∷ (b / 4 % 2)
    ∷ (b / 2 % 2)
    ∷ (b % 2)
    ∷ bits_of bs

module _ ⦃m : Math⦄ where
  unfoldable pub lo128 : ℕ → Result ℕ
  lo128 a = do let hi_part = m.shl (m.shr a 128) 128; m.sub a hi_part

  unfoldable pub wrapping_add : ℕ → ℕ → Result (ℕ × Bool)
  wrapping_add a b = do
    remaining ← m.sub max_u256 a
    elim (leb b remaining) [
      | true ↦ do sum ← m.add a b; ok (sum, false)
      | false ↦ do over ← m.sub b remaining; sum ← m.sub over 1; ok (sum, true)
    ]

  -- The product, as its high and low 256 bits.
  unfoldable pub u256_full_mul : ℕ → ℕ → Result (ℕ × ℕ)
  u256_full_mul a b = do
    a_lo ← lo128 a
    let a_hi = m.shr a 128
    b_lo ← lo128 b
    let b_hi = m.shr b 128
    lo_lo ← m.mul a_lo b_lo
    hi_lo ← m.mul a_hi b_lo
    lo_hi ← m.mul a_lo b_hi
    hi_hi ← m.mul a_hi b_hi
    cross ← wrapping_add hi_lo lo_hi
    let cross_carry = if cross.1 then 1 else 0
    cross_lo ← lo128 cross.0
    lo ← wrapping_add lo_lo (m.shl cross_lo 128)
    let lo_carry = if lo.1 then 1 else 0
    hi₁ ← m.add hi_hi (m.shr cross.0 128)
    hi₂ ← m.add hi₁ (m.shl cross_carry 128)
    hi ← m.add hi₂ lo_carry
    ok (hi, lo.0)

  -- One turn of the loop of `u512_div_bytes`: the next byte of the dividend.
  unfoldable pub divide_byte : ℕ → ℕ × ℕ → ℕ → Result (ℕ × ℕ)
  divide_byte d (quotient, remainder) byte = do
    grown ← m.add (m.shl remainder 8) byte
    q_chunk ← m.div grown d
    left ← m.rem grown d
    quotient' ← m.add (m.shl quotient 8) q_chunk
    ok (quotient', left)

  unfoldable pub divide_bytes : ℕ → ℕ × ℕ → List ℕ → Result (ℕ × ℕ)
  divide_bytes d state [] = ok state
  divide_bytes d state (byte ∷ bytes) = do
    state' ← divide_byte d state byte
    divide_bytes d state' bytes

  unfoldable pub u512_div_bytes : ℕ → ℕ → ℕ → Result (ℕ × ℕ)
  u512_div_bytes hi lo d = divide_bytes d (0, 0) (m.to_be_bytes hi ++ m.to_be_bytes lo)

  -- One turn of the loop of `u512_div_bits`: the next bit.
  unfoldable pub divide_bit : ℕ → ℕ × ℕ → ℕ → Result (ℕ × ℕ)
  divide_bit d (quotient, remainder) bit = do
    doubled ← wrapping_add remainder remainder
    rem_with_bit ← elim (bit == 0) [ true ↦ ok doubled.0 | false ↦ m.add doubled.0 1 ]
    elim (doubled.1 || leb d rem_with_bit) [
      | true ↦ do
        left ← elim doubled.1 [
          | true ↦ do
            below ← m.sub max_u256 d
            complement ← m.add below 1
            m.add rem_with_bit complement
          | false ↦ m.sub rem_with_bit d
        ]
        quotient' ← m.add (m.shl quotient 1) 1
        ok (quotient', left)
      | false ↦ ok (m.shl quotient 1, rem_with_bit)
    ]

  unfoldable pub divide_bits : ℕ → ℕ × ℕ → List ℕ → Result (ℕ × ℕ)
  divide_bits d state [] = ok state
  divide_bits d state (bit ∷ bits) = do state' ← divide_bit d state bit; divide_bits d state' bits

  unfoldable pub u512_div_bits : ℕ → ℕ → ℕ → Result (ℕ × ℕ)
  unfolding bits_of
  u512_div_bits hi lo d = divide_bits d (0, hi) (bits_of (m.to_be_bytes lo))

  -- The last step of both paths.
  unfoldable pub rounded : Bool → ℕ → ℕ → Result ℕ
  rounded round_up quotient remainder = elim (round_up && not (remainder == 0)) [
    | true ↦ m.add quotient 1
    | false ↦ ok quotient
  ]

  unfoldable pub mul_div_internal : ℕ → ℕ → ℕ → Bool → Result ℕ
  mul_div_internal a b d round_up = elim (a == 0 || b == 0) [
    | true ↦ ok 0
    | false ↦ elim (m.shr a 128 == 0 && m.shr b 128 == 0) [
      | true ↦ do
        product ← m.mul a b
        quotient ← m.div product d
        remainder ← m.rem product d
        rounded round_up quotient remainder
      | false ↦ do
        product ← u256_full_mul a b
        let by_bytes = u512_div_bytes product.0 product.1 d
        let by_bits = u512_div_bits product.0 product.1 d
        parts ← if m.shr d 248 == 0 then by_bytes else by_bits
        rounded round_up parts.0 parts.1
    ]
  ]

  unfoldable pub mul_div_floor : ℕ → ℕ → ℕ → Result ℕ
  mul_div_floor a b d = mul_div_internal a b d false

  unfoldable pub mul_div_ceil : ℕ → ℕ → ℕ → Result ℕ
  mul_div_ceil a b d = mul_div_internal a b d true
