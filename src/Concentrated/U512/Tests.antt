-- ===== src/Concentrated/U512/Tests.antt =====
-- Runs of the 512-bit quotient at concrete numbers, and the theorems applied at them.
use soroban_amm.Prelude.{ℕ, ◌+◌, ◌-◌, ◌*◌, ◌/◌, ◌^◌, ◌≡◌, arith}
use soroban_amm.Host.{ok}
use soroban_amm.Host.Exact.{exact}
use soroban_amm.Concentrated.U512.{mul_div_floor, mul_div_ceil}
use soroban_amm.Concentrated.U512.Exactness.{mul_div_floor-exact, mul_div_ceil-exact}

abbrev x : ℕ
x = 2 ^ 200 + 12345

abbrev y : ℕ
y = 2 ^ 220 + 678

abbrev z : ℕ
z = 2 ^ 250 + 9

mul_div_floor-exact_example : mul_div_floor ⦃m = exact⦄ x y z ≡ ok (x * y / z)
mul_div_floor-exact_example =
    mul_div_floor-exact ⦃m = exact⦄ x y z (omega arith) (omega arith) (omega arith) (omega arith)
      (omega arith)

mul_div_ceil-exact_example : mul_div_ceil ⦃m = exact⦄ x y z ≡ ok ((x * y + (z - 1)) / z)
mul_div_ceil-exact_example =
    mul_div_ceil-exact ⦃m = exact⦄ x y z (omega arith) (omega arith) (omega arith) (omega arith)
      (omega arith)
