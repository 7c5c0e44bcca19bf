-- ===== src/Stableswap/Invariant.antt =====
-- liquidity_pool_stableswap/src/contract.rs: the invariant `D` by Newton's iteration.
pub mod Balanced
use soroban_amm.Prelude.{
  ℕ, zero, suc, ◌+◌, ◌-◌, ◌*◌, Bool, true, false, List, [], ◌∷◌, ltb, leb, ◌==◌,
}
use soroban_amm.Host.{Math, Result, ok, err, ◌>>=◌, fit, stableswap, max_iterations_reached}

-- `|a - b| <= 1`, the test that ends the iterations.
unfoldable pub is_within_one : ℕ → ℕ → Bool
is_within_one new old = elim (ltb old new) [ true ↦ leb (new - old) 1 | false ↦ leb (old - new) 1 ]

module _ ⦃m : Math⦄ where
  -- `for x in xp.iter() { s = s.add(&x) }`
  unfoldable pub sum_of : ℕ → List ℕ → Result ℕ
  sum_of s [] = ok s
  sum_of s (x ∷ xs) = do s' ← m.add s x; sum_of s' xs

  -- The loop over `x1` that computes `d_p`.
  unfoldable pub product_of : ℕ → ℕ → ℕ → List ℕ → Result ℕ
  product_of n_coins d d_p [] = ok d_p
  product_of n_coins d d_p (x ∷ xs) = do
    scaled ← fit 128 (x * n_coins)
    d_p' ← m.fixed_mul_floor_u256 d_p d scaled
    product_of n_coins d d_p' xs

  -- One turn of the loop of `_get_d`: the next value of `d`.
  unfoldable pub next_d : ℕ → ℕ → ℕ → List ℕ → ℕ → Result ℕ
  next_d n_coins ann s xp d = do
    d_p ← product_of n_coins d d xp
    ann_s ← m.mul ann s
    d_p_n ← m.mul d_p n_coins
    factor ← m.add ann_s d_p_n
    less ← m.sub ann 1
    less_d ← m.mul less d
    more ← m.add n_coins 1
    more_d_p ← m.mul more d_p
    divisor ← m.add less_d more_d_p
    m.fixed_mul_floor_u256 factor d divisor

  -- The loop of `_get_d` with `turns` turns left.
  unfoldable pub iterate_d : ℕ → ℕ → ℕ → ℕ → List ℕ → ℕ → Result ℕ
  iterate_d zero n_coins ann s xp d = err (stableswap max_iterations_reached)
  iterate_d (suc turns) n_coins ann s xp d = do
    d' ← next_d n_coins ann s xp d
    elim (is_within_one d' d) [ true ↦ ok d' | false ↦ iterate_d turns n_coins ann s xp d' ]

  -- `LiquidityPool::_get_d`
  unfoldable pub get_d : ℕ → List ℕ → ℕ → Result ℕ
  get_d n_coins xp amp = do
    s ← sum_of 0 xp
    elim (s == 0) [
      | true ↦ ok 0
      | false ↦ do ann ← fit 128 (amp * n_coins); iterate_d 255 n_coins ann s xp s
    ]
