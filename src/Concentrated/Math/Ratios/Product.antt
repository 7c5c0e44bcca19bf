-- ===== src/Concentrated/Math/Ratios/Product.antt =====
-- liquidity_pool_concentrated/src/math.rs: `widening_mul`.
use native.Mathlib.Nat.{mul-le-mul}
use soroban_amm.Prelude.{ℕ, ◌+◌, ◌-◌, ◌*◌, ◌/◌, ◌%◌, ◌^◌, ◌≤◌, ◌<◌, ◌≡◌, arith}
use soroban_amm.Concentrated.Math.Ratios.{widening_mul}

product_of_halves :
    (a b ah al bh bl : ℕ)
    → a ≡ ah * 2 ^ 64 + al
    → b ≡ bh * 2 ^ 64 + bl
    → a * b ≡ ah * bh * 2 ^ 128 + (ah * bl + al * bh) * 2 ^ 64 + al * bl
product_of_halves a b ah al bh bl p q = rw (p, q) (omega arith)

halves : (a : ℕ) → a ≡ a / 2 ^ 64 * 2 ^ 64 + a % 2 ^ 64
halves a = omega arith

-- For 128-bit factors, `widening_mul` gives the two 128-bit halves of the exact product.
pub widening_mul-exact :
    (a b : ℕ)
    → a < 2 ^ 128
    → b < 2 ^ 128
    → ((widening_mul a b).0 * 2 ^ 128 + (widening_mul a b).1 ≡ a * b)
      × ((widening_mul a b).0 < 2 ^ 128)
      × ((widening_mul a b).1 < 2 ^ 128)
unfolding widening_mul
widening_mul-exact a b ha hb =
    let whole =
      product_of_halves a b (a / 2 ^ 64) (a % 2 ^ 64) (b / 2 ^ 64) (b % 2 ^ 64) (halves a)
        (halves b) in
    let le : a * b ≤ (2 ^ 128 - 1) * (2 ^ 128 - 1) =
      mul-le-mul {n₂ = 2 ^ 128 - 1} {m₂ = 2 ^ 128 - 1} (omega arith) (omega arith) in
    (omega arith, omega arith, omega arith)
