-- ===== src/Utils/Sqrt.antt =====
-- The square root is exact and the iteration ends.
use native.Mathlib.Nat.{mul-le-mul, le_refl}
use soroban_amm.Prelude.{
  ℕ, zero, suc, ◌+◌, ◌*◌, ◌/◌, ◌^◌, ◌≤◌, ◌<◌, ◌≡◌, inl, inr, arith, ltb, Bool-cases,
}
use soroban_amm.Prelude.Arith.{div_bounds, four_mul-le-square, square_mono, add-le-mul_add_one}
use soroban_amm.Host.{Math, ok}
use soroban_amm.Utils.{sqrt_loop, sqrt}

-- `r` is the square root of `n`, rounded down.
abbrev pub IsRoot : ℕ → ℕ → Type 0
IsRoot n r = (r * r ≤ n) × (n < (r + 1) * (r + 1))

-- The next guess from a guess `y`.
abbrev newton : ℕ → ℕ → ℕ
newton n y = (n / y + y) / 2

newton_above : (n y : ℕ) → 0 < y → n < (newton n y + 1) * (newton n y + 1)
newton_above n y h =
    let q = n / y in
    let z = newton n y in
    let mean : q + 1 + y ≤ 2 * z + 2 = omega arith in
    let big : (q + 1 + y) * (q + 1 + y) ≤ (2 * z + 2) * (2 * z + 2) = square_mono _ _ mean in
    omega (arith, div_bounds n y h, four_mul-le-square (q + 1) y, big)

newton_pos : (n y : ℕ) → 0 < n → 0 < y → 0 < newton n y
newton_pos n y hn hy = grind arith

newton_fits : (n z : ℕ) → 0 < z → z ≤ n → n / z + z ≤ n + 1
newton_fits n z hz h =
    let pos : 0 < n / z = grind arith in
    omega (arith, div_bounds n z hz, add-le-mul_add_one (n / z) z pos hz)

-- Where the next guess is no smaller, the guess squared is at most `n`.
newton_done : (n y : ℕ) → 0 < y → y ≤ newton n y → y * y ≤ n
newton_done n y hy h =
    let q : y ≤ n / y = omega arith in omega (arith, div_bounds n y hy, mul-le-mul q (le_refl y))

module _ ⦃m : Math⦄ where
  -- One turn of the loop.
  sqrt_loop-suc :
      (fuel n z y : ℕ)
      → 0 < z
      → z < y
      → n / z + z < 2 ^ 256
      → sqrt_loop (suc fuel) n z y ≡ sqrt_loop fuel n (newton n z) z
  unfolding sqrt_loop
  sqrt_loop-suc fuel n z y hz hy fits =
      ground (arith, m.div_lem n z, m.add_lem (n / z) z, m.div_lem (n / z + z) 2)

  sqrt_loop-IsRoot :
      (fuel n y : ℕ)
      → 0 < n
      → n + 1 < 2 ^ 256
      → 0 < y
      → y ≤ n
      → y < fuel
      → n < (y + 1) * (y + 1)
      → (r : ℕ) × (sqrt_loop fuel n (newton n y) y ≡ ok r) × IsRoot n r
  unfolding sqrt_loop
  sqrt_loop-IsRoot zero n y hn small hy le enough above = absurd (omega arith)
  sqrt_loop-IsRoot (suc fuel) n y hn small hy le enough above =
      elim (Bool-cases (ltb (newton n y) y)) [
        | inl down ↦
            let z = newton n y in
            let lt : z < y = ground arith in
            let hz = newton_pos n y hn hy in
            let fits : n / z + z < 2 ^ 256 = omega (arith, newton_fits n z hz (omega arith)) in
            rw (sqrt_loop-suc fuel n z y hz lt fits) (
              sqrt_loop-IsRoot fuel n z hn small hz (omega arith) (omega arith)
                (newton_above n y hy))
        | inr up ↦ (y, ground arith, (newton_done n y hy (ground arith), above))
      ]

  sqrt-eq-loop : (n : ℕ) → n + 1 < 2 ^ 256 → sqrt n ≡ sqrt_loop (suc n) n ((n + 1) / 2) n
  unfolding sqrt
  sqrt-eq-loop n small = ground (arith, m.add_lem n 1, m.div_lem (n + 1) 2)

  -- The square root of every number below 2 ^ 256 - 1 is returned, and it is the exact root rounded
  -- down.
  pub sqrt-IsRoot : (n : ℕ) → n + 1 < 2 ^ 256 → (r : ℕ) × (sqrt n ≡ ok r) × IsRoot n r
  unfolding sqrt_loop
  sqrt-IsRoot zero small = (0, rw (sqrt-eq-loop 0 small), (omega arith, omega arith))
  sqrt-IsRoot (suc k) small =
      let n = suc k in
      let first : (n + 1) / 2 ≡ newton n n = grind arith in
      rw (sqrt-eq-loop n small, first)
        (sqrt_loop-IsRoot (suc n) n n (omega arith) small (omega arith) (omega arith) (omega arith)
          (grind arith))
