-- ===== src/Utils/Tests.antt =====
-- The interface of the arithmetic can be met: by the functions that its laws name.
use soroban_amm.Prelude.{ℕ, ◌≡◌, refl, arith}
use soroban_amm.Host.{ok}
use soroban_amm.Host.Exact.{exact}
use soroban_amm.Utils.{sqrt}
use soroban_amm.Utils.Sqrt.{IsRoot, sqrt-IsRoot}

sqrt_runs : sqrt ⦃m = exact⦄ 1000000 ≡ ok 1000
unfolding sqrt
sqrt_runs = refl

sqrt-IsRoot_example : (r : ℕ) × (sqrt ⦃m = exact⦄ 99 ≡ ok r) × IsRoot 99 r
sqrt-IsRoot_example = sqrt-IsRoot ⦃m = exact⦄ 99 (omega arith)
