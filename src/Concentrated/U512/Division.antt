-- ===== src/Concentrated/U512/Division.antt =====
-- Both long divisions find quotient and remainder, the quotient up to multiples of `2 ^ 256`.
use native.Mathlib.Numerals.{unary_clauses}
use soroban_amm.Prelude.{
  ℕ, ◌+◌, ◌-◌, ◌*◌, ◌/◌, ◌%◌, ◌^◌, ◌≤◌, ◌<◌, ◌≡◌, ◌∙◌, ap, sym, refl, inl, inr, List, [], ◌∷◌, ◌++◌,
  length, All, All-append, arith, if◌then◌else◌, leb, Bool-cases,
}
use soroban_amm.Prelude.Arith.{div_bounds}
use soroban_amm.Host.{Math, ok, IsByte}
use soroban_amm.Host.Numbers.{from_be_bytes}
use soroban_amm.Concentrated.U512.{
  max_u256, divide_byte, divide_bytes, divide_bit, divide_bits, bits_of, u512_div_bytes,
  u512_div_bits,
}
use soroban_amm.Concentrated.U512.Product.{wrapping_add_lem}

step_byte : (d v q r byte : ℕ) → v ≡ q * d + r → v * 256 + byte ≡ (q * 256) * d + (r * 256 + byte)
step_byte d v q r byte e = rw e (omega arith)

regroup : (d v q g k s : ℕ) → v ≡ q * d + g → g ≡ k * d + s → v ≡ (q + k) * d + s
regroup d v q g k s e f = rw (e, f) (omega arith)

div_split : (g d : ℕ) → 0 < d → (g ≡ g / d * d + g % d) × (g % d < d)
div_split g d h = grind arith

chunk_lt : (d r byte : ℕ) → r < d → byte < 256 → (r * 256 + byte) / d < 256
chunk_lt d r byte lt b = grind (arith, div_bounds (r * 256 + byte) d)

append_byte :
    (q k : ℕ)
    → k < 256
    → (q % 2 ^ 256 * 2 ^ 8 % 2 ^ 256 + k < 2 ^ 256)
      × (q % 2 ^ 256 * 2 ^ 8 % 2 ^ 256 + k ≡ (q * 256 + k) % 2 ^ 256)
append_byte q k h = omega arith

module _ ⦃m : Math⦄ where
  pub add_fits : (x y : ℕ) → x + y < 2 ^ 256 → m.add x y ≡ ok (x + y)
  add_fits x y h = ground (arith, m.add_lem x y)

  byte_run :
      (d q r byte grown k left q' : ℕ)
      → m.add (m.shl r 8) byte ≡ ok grown
      → m.div grown d ≡ ok k
      → m.rem grown d ≡ ok left
      → m.add (m.shl q 8) k ≡ ok q'
      → divide_byte d (q, r) byte ≡ ok (q', left)
  unfolding divide_byte
  byte_run d q r byte grown k left q' e₁ e₂ e₃ e₄ = rw (divide_byte, e₁, e₂, e₃, e₄) refl

  divide_byte_lem :
      (d q r byte : ℕ)
      → 0 < d
      → d < 2 ^ 248
      → r < d
      → byte < 256
      → divide_byte d (q % 2 ^ 256, r) byte
        ≡ ok ((q * 256 + (r * 256 + byte) / d) % 2 ^ 256, (r * 256 + byte) % d)
  divide_byte_lem d q r byte pos small lt b =
      let g = r * 256 + byte in
      let k = g / d in
      let (fits, e) = append_byte q k (chunk_lt d r byte lt b) in
      let shifted : m.shl r 8 ≡ r * 256 = omega (arith, m.shl_lem r 8 (omega arith)) in
      byte_run d (q % 2 ^ 256) r byte g k (g % d) ((q * 256 + k) % 2 ^ 256)
        (rw shifted (add_fits (r * 256) byte (omega arith))) (ground (arith, m.div_lem g d))
        (ground (arith, m.rem_lem g d))
        (rw (m.shl_lem (q % 2 ^ 256) 8 (omega arith), sym e) (add_fits _ k fits))

  pub divide_bytes_lem :
      (d v q r : ℕ) (bytes : List ℕ)
      → 0 < d
      → d < 2 ^ 248
      → v ≡ q * d + r
      → r < d
      → All IsByte bytes
      → (q' : ℕ) × (r' : ℕ) × (divide_bytes d (q % 2 ^ 256, r) bytes ≡ ok (q' % 2 ^ 256, r'))
        × (from_be_bytes v bytes ≡ q' * d + r')
        × (r' < d)
  unfolding divide_bytes from_be_bytes
  divide_bytes_lem d v q r [] pos small e lt all = (q, r, refl, e, lt)
  divide_bytes_lem d v q r (byte ∷ bytes) pos small e lt (b, all) =
      let g = r * 256 + byte in
      let (split, lt') = div_split g d pos in
      let e' =
        regroup d (v * 256 + byte) (q * 256) g (g / d) (g % d) (step_byte d v q r byte e) split in
      let (q', r', run, value, lt'') =
        divide_bytes_lem d (v * 256 + byte) (q * 256 + g / d) (g % d) bytes pos small e' lt' all in
      (q', r', rw (divide_byte_lem d q r byte pos small lt b) run, value, lt'')

  divide_bit_lem :
      (d q r bit : ℕ)
      → 0 < d
      → d < 2 ^ 256
      → r < d
      → bit < 2
      → divide_bit d (q % 2 ^ 256, r) bit ≡ (
          if leb d (r * 2 + bit)
          then ok ((q * 2 + 1) % 2 ^ 256, r * 2 + bit - d)
          else ok (q * 2 % 2 ^ 256, r * 2 + bit))
  unfolding divide_bit
  divide_bit_lem d q r bit pos small lt b =
      let w = (r + r) % 2 ^ 256 in
      ground (
        arith,
        wrapping_add_lem r r,
        m.add_lem w 1,
        m.sub_lem max_u256 d,
        m.add_lem (max_u256 - d) 1,
        m.add_lem w (max_u256 - d + 1),
        m.add_lem (w + 1) (max_u256 - d + 1),
        m.sub_lem w d,
        m.sub_lem (w + 1) d,
        m.shl_lem (q % 2 ^ 256) 1,
        m.add_lem (q % 2 ^ 256 * 2 ^ 1 % 2 ^ 256) 1,
      )

-- The number whose binary digits are those of `acc` and then the bits, the highest first.
pub from_bits : ℕ → List ℕ → ℕ
from_bits acc [] = acc
from_bits acc (bit ∷ bits) = from_bits (acc * 2 + bit) bits

abbrev IsBit : ℕ → Type 0
IsBit bit = bit < 2

pub from_bits-bits_of :
    (v : ℕ) (bytes : List ℕ)
    → All IsByte bytes
    → from_bits v (bits_of bytes) ≡ from_be_bytes v bytes
unfolding from_bits bits_of from_be_bytes
from_bits-bits_of v [] h = refl
from_bits-bits_of v (b ∷ bytes) (h, all) =
    ap (λ n. from_bits n (bits_of bytes)) (omega arith) ∙ from_bits-bits_of (v * 256 + b) bytes all

bits_of-IsBit : (bytes : List ℕ) → All IsBit (bits_of bytes)
unfolding bits_of
bits_of-IsBit [] = tt
bits_of-IsBit (b ∷ bytes) =
    let rest = bits_of-IsBit bytes in
    let bit : (n : ℕ) → IsBit (n % 2) = λ n. omega arith in
    (bit _, (bit _, (bit _, (bit _, (bit _, (bit _, (bit _, (bit b, rest))))))))

step_bit_up :
    (d v q r bit : ℕ)
    → v ≡ q * d + r
    → d ≤ r * 2 + bit
    → v * 2 + bit ≡ (q * 2 + 1) * d + (r * 2 + bit - d)
step_bit_up d v q r bit e h = rw e (omega arith)

step_bit_down : (d v q r bit : ℕ) → v ≡ q * d + r → v * 2 + bit ≡ (q * 2) * d + (r * 2 + bit)
step_bit_down d v q r bit e = rw e (omega arith)

from_be_bytes-append :
    (v : ℕ) (xs ys : List ℕ) → from_be_bytes v (xs ++ ys) ≡ from_be_bytes (from_be_bytes v xs) ys
unfolding from_be_bytes
from_be_bytes-append v [] ys = refl
from_be_bytes-append v (x ∷ xs) ys = from_be_bytes-append (v * 256 + x) xs ys

shift_digit :
    (v x p low whole part : ℕ)
    → whole ≡ (v * 256 + x) * p + low
    → part ≡ (0 * 256 + x) * p + low
    → whole ≡ v * (p * 256) + part
shift_digit v x p low whole part e f = rw (e, f) (omega arith)

from_be_bytes-shift :
    (v : ℕ) (xs : List ℕ) → from_be_bytes v xs ≡ v * 256 ^ length xs + from_be_bytes 0 xs
unfolding from_be_bytes
from_be_bytes-shift v [] = omega arith
from_be_bytes-shift v (x ∷ xs) = simp unary_clauses (
    shift_digit v x (256 ^ length xs) (from_be_bytes 0 xs) (from_be_bytes (v * 256 + x) xs)
      (from_be_bytes (0 * 256 + x) xs) (from_be_bytes-shift (v * 256 + x) xs)
      (from_be_bytes-shift (0 * 256 + x) xs))

-- A high half and 32 bytes.
joined :
    (hi lo : ℕ) (bytes : List ℕ)
    → length bytes ≡ 32
    → from_be_bytes 0 bytes ≡ lo
    → hi * 2 ^ 256 + lo ≡ from_be_bytes hi bytes
joined hi lo bytes len value =
    let shifted : from_be_bytes hi bytes ≡ hi * 256 ^ 32 + from_be_bytes 0 bytes =
      rw len at (from_be_bytes-shift hi bytes) in
    omega arith

unique : (v d q r : ℕ) → 0 < d → v ≡ q * d + r → r < d → (q ≡ v / d) × (r ≡ v % d)
unique v d q r pos e lt = (grind (arith, div_bounds v d), grind (arith, div_bounds v d))

module _ ⦃m : Math⦄ where
  pub divide_bits_lem :
      (d v q r : ℕ) (bits : List ℕ)
      → 0 < d
      → d < 2 ^ 256
      → v ≡ q * d + r
      → r < d
      → All IsBit bits
      → (q' : ℕ) × (r' : ℕ) × (divide_bits d (q % 2 ^ 256, r) bits ≡ ok (q' % 2 ^ 256, r'))
        × (from_bits v bits ≡ q' * d + r')
        × (r' < d)
  unfolding divide_bits from_bits
  divide_bits_lem d v q r [] pos small e lt all = (q, r, refl, e, lt)
  divide_bits_lem d v q r (bit ∷ bits) pos small e lt (b, all) =
      let g = r * 2 + bit in
      let turn = divide_bit_lem d q r bit pos small lt b in
      elim (Bool-cases (leb d g)) [
        | inl up ↦
            let e' = step_bit_up d v q r bit e (ground arith) in
            let (q', r', run, rest, lt') =
              divide_bits_lem d (v * 2 + bit) (q * 2 + 1) (g - d) bits pos small e' (omega arith)
                all in
            let here : divide_bit d (q % 2 ^ 256, r) bit ≡ ok ((q * 2 + 1) % 2 ^ 256, g - d) =
              rw up at turn in
            (q', r', rw here run, rest, lt')
        | inr down ↦
            let e' = step_bit_down d v q r bit e in
            let (q', r', run, rest, lt') =
              divide_bits_lem d (v * 2 + bit) (q * 2) g bits pos small e' (ground arith) all in
            let here : divide_bit d (q % 2 ^ 256, r) bit ≡ ok (q * 2 % 2 ^ 256, g) =
              rw down at turn in
            (q', r', rw here run, rest, lt')
      ]

  -- For a dividend `hi * 2 ^ 256 + lo` with a quotient below `2 ^ 256`, so `hi < d`.
  pub u512_div_bits_lem :
      (hi lo d : ℕ)
      → 0 < d
      → d < 2 ^ 256
      → hi < d
      → lo < 2 ^ 256
      → u512_div_bits hi lo d ≡ ok ((hi * 2 ^ 256 + lo) / d % 2 ^ 256, (hi * 2 ^ 256 + lo) % d)
  unfolding u512_div_bits
  u512_div_bits_lem hi lo d pos small lt h =
      let (len, bytes, value) = m.to_be_bytes_lem lo h in
      let (q, r, run, e, lt') =
        divide_bits_lem d hi 0 hi (bits_of (m.to_be_bytes lo)) pos small (omega arith) lt
          (bits_of-IsBit (m.to_be_bytes lo)) in
      let v = hi * 2 ^ 256 + lo in
      let ev : v ≡ q * d + r =
        joined hi lo (m.to_be_bytes lo) len value
        ∙ sym (from_bits-bits_of hi (m.to_be_bytes lo) bytes)
        ∙ e in
      let (eq, er) = unique v d q r pos ev lt' in rw (sym eq, sym er) run

  -- For every dividend, the quotient less its multiples of `2 ^ 256`.
  pub u512_div_bytes_lem :
      (hi lo d : ℕ)
      → 0 < d
      → d < 2 ^ 248
      → hi < 2 ^ 256
      → lo < 2 ^ 256
      → u512_div_bytes hi lo d ≡ ok ((hi * 2 ^ 256 + lo) / d % 2 ^ 256, (hi * 2 ^ 256 + lo) % d)
  unfolding u512_div_bytes
  u512_div_bytes_lem hi lo d pos small h h' =
      let (len, bytes, value) = m.to_be_bytes_lem lo h' in
      let (_, bytes', value') = m.to_be_bytes_lem hi h in
      let all = m.to_be_bytes hi ++ m.to_be_bytes lo in
      let (q, r, run, e, lt') =
        divide_bytes_lem d 0 0 0 all pos small (omega arith) pos
          (All-append IsByte (m.to_be_bytes hi) (m.to_be_bytes lo) bytes' bytes) in
      let v = hi * 2 ^ 256 + lo in
      let ev : v ≡ q * d + r =
        joined hi lo (m.to_be_bytes lo) len value
        ∙ sym (ap (λ n. from_be_bytes n (m.to_be_bytes lo)) value')
        ∙ sym (from_be_bytes-append 0 (m.to_be_bytes hi) (m.to_be_bytes lo))
        ∙ e in
      let (eq, er) = unique v d q r pos ev lt' in rw (sym eq, sym er) run
