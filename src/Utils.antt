-- ===== src/Utils.antt =====
-- utils/src/u256_math.rs: the integer square root of a `U256`, by Newton's iteration.
pub mod Sqrt
mod Tests
use soroban_amm.Prelude.{ℕ, zero, suc, true, false, ltb}
use soroban_amm.Host.{Math, Result, ok, err, host, no_fuel, ◌>>=◌}

module _ ⦃m : Math⦄ where
  -- `while z < y { y = z; z = (self / z + z) / 2 }`, then `y`.
  pub sqrt_loop : ℕ → ℕ → ℕ → ℕ → Result ℕ
  sqrt_loop zero n z y = err (host no_fuel)
  sqrt_loop (suc fuel) n z y = elim (ltb z y) [
    | true ↦ do q ← m.div n z; s ← m.add q z; z' ← m.div s 2; sqrt_loop fuel n z' z
    | false ↦ ok y
  ]

  -- `ExtraMath::sqrt`. The first guess is `self`, and each guess is smaller than the one before.
  pub sqrt : ℕ → Result ℕ
  unfolding sqrt_loop
  sqrt n = do s ← m.add n 1; z ← m.div s 2; sqrt_loop (suc n) n z n
