-- ===== src/Stableswap/Solve.antt =====
-- liquidity_pool_stableswap/src/contract.rs: one balance from the others and the invariant.
pub mod Root
use soroban_amm.Prelude.{
  ℕ, zero, suc, ◌+◌, ◌*◌, true, false, List, length, leb, ◌==◌, if◌then◌else◌,
}
use soroban_amm.Host.{
  Env, Math, Result, ok, err, ◌>>=◌, ◌>>◌, panic_if, fit, stableswap, max_iterations_reached,
  validation, cannot_swap_same_token, in_token_out_of_bounds, out_token_out_of_bounds,
}
use soroban_amm.Stableswap.State.{Stable, get}
use soroban_amm.Stableswap.Ramp.{a}
use soroban_amm.Stableswap.Invariant.{is_within_one, get_d}

module _ ⦃m : Math⦄ where
  -- One turn of the loops of `_get_y` and `_get_y_d`: the next value of `y`.
  unfoldable pub next_y : ℕ → ℕ → ℕ → ℕ → Result ℕ
  next_y c b d y = do
    square ← m.mul y y
    above ← m.add square c
    twice ← m.mul 2 y
    shifted ← m.add twice b
    below ← m.sub shifted d
    m.div above below

  -- Those loops with `turns` turns left, and the conversion of their result.
  unfoldable pub iterate_y : ℕ → ℕ → ℕ → ℕ → ℕ → Result ℕ
  iterate_y zero c b d y = err (stableswap max_iterations_reached)
  iterate_y (suc turns) c b d y = do
    y' ← next_y c b d y
    elim (is_within_one y' y) [ true ↦ fit 128 y' | false ↦ iterate_y turns c b d y' ]

  -- The balances in `_get_y`: `x` at `in_idx`, elsewhere as they are.
  unfoldable pub known_at : ℕ → ℕ → List ℕ → ℕ → Result ℕ
  known_at in_idx x xp i = if i == in_idx then ok x else get xp i

  -- The loops over the balances: `known i` is the balance that stands at `i` in the equation, and
  -- `skip` is the index of the unknown. The state is `(c, s)`.
  unfoldable pub accumulate : ℕ → ℕ → ℕ → (ℕ → Result ℕ) → ℕ → ℕ → ℕ × ℕ → Result (ℕ × ℕ)
  accumulate n_coins d skip known i zero (c, s) = ok (c, s)
  accumulate n_coins d skip known i (suc left) (c, s) = elim (i == skip) [
    | true ↦ accumulate n_coins d skip known (suc i) left (c, s)
    | false ↦ do
      x ← known i
      s' ← m.add s x
      scaled ← m.mul x n_coins
      c' ← m.fixed_mul_floor_u256 c d scaled
      accumulate n_coins d skip known (suc i) left (c', s')
  ]

  -- The end of `_get_y` and `_get_y_d`: the coefficients of the quadratic equation, and its root.
  unfoldable pub solve : ℕ → ℕ → ℕ → ℕ × ℕ → Result ℕ
  solve n_coins ann d (c, s) = do
    c_d ← m.mul c d
    ann_n ← m.mul ann n_coins
    c' ← m.div c_d ann_n
    d_ann ← m.div d ann
    b ← m.add s d_ann
    iterate_y 255 c' b d d

  -- `LiquidityPool::_get_y`
  unfoldable pub get_y : Env → Stable → ℕ → ℕ → ℕ → List ℕ → Result ℕ
  get_y e p in_idx out_idx x xp = do
    let n_coins = length p.tokens
    panic_if (in_idx == out_idx) (validation cannot_swap_same_token)
    panic_if (leb n_coins out_idx) (validation out_token_out_of_bounds)
    panic_if (leb n_coins in_idx) (validation in_token_out_of_bounds)
    amp ← a e p
    d ← get_d n_coins xp amp
    ann ← fit 128 (amp * n_coins)
    sums ← accumulate n_coins d out_idx (known_at in_idx x xp) 0 n_coins (d, 0)
    solve n_coins ann d sums

  -- `LiquidityPool::_get_y_d`
  unfoldable pub get_y_d : Stable → ℕ → ℕ → List ℕ → ℕ → Result ℕ
  get_y_d p amp in_idx xp d = do
    let n_coins = length p.tokens
    panic_if (leb n_coins in_idx) (validation in_token_out_of_bounds)
    ann ← fit 128 (amp * n_coins)
    sums ← accumulate n_coins d in_idx (get xp) 0 n_coins (d, 0)
    solve n_coins ann d sums
