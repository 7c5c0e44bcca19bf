-- ===== src/Stableswap/Ramp.antt =====
-- liquidity_pool_stableswap/src/contract.rs: the amplification coefficient and its ramp.
pub mod Bounds
use soroban_amm.Prelude.{ℕ, ◌+◌, ◌-◌, ◌*◌, true, false, Bool, not, ◌&&◌, ltb, leb}
use soroban_amm.Host.{
  Address, Env, Math, Result, ok, ◌>>=◌, ◌>>◌, panic_if, require_auth, fit, sub_checked, stableswap,
  StableswapError, ramp_too_early, ramp_time_less_than_minimum, ramp_over_max, ramp_too_fast,
}
use soroban_amm.Access.Store.{require_operations_admin_or_owner}
use soroban_amm.Stableswap.State.{Stable}

abbrev pub max_a : ℕ
max_a = 1000000

abbrev pub max_a_change : ℕ
max_a_change = 10

abbrev pub min_ramp_time : ℕ
min_ramp_time = 86400

-- The four `put_` calls of `ramp_a` and `stop_ramp_a`.
unfoldable pub put_ramp : Stable → ℕ → ℕ → ℕ → ℕ → Stable
put_ramp p initial_a future_a initial_a_time future_a_time = record p {
  initial_a = initial_a;
  future_a = future_a;
  initial_a_time = initial_a_time;
  future_a_time = future_a_time;
}

module _ ⦃m : Math⦄ where
  -- `LiquidityPool::a`
  unfoldable pub a : Env → Stable → Result ℕ
  a e p = do
    let now = e.timestamp
    elim (ltb now p.future_a_time) [
      | true ↦ do
        elapsed ← sub_checked now p.initial_a_time
        duration ← sub_checked p.future_a_time p.initial_a_time
        elim (ltb p.initial_a p.future_a) [
          | true ↦ do
            gained ← m.fixed_mul_floor (p.future_a - p.initial_a) elapsed duration
            fit 128 (p.initial_a + gained)
          | false ↦ do
            lost ← m.fixed_mul_floor (p.initial_a - p.future_a) elapsed duration
            sub_checked p.initial_a lost
        ]
      | false ↦ ok p.future_a
    ]

  -- The last test of `ramp_a`: the new value is within a factor of ten.
  unfoldable pub is_slow : ℕ → ℕ → Result Bool
  is_slow initial_a future_a = elim (leb initial_a future_a) [
    | true ↦ do most ← fit 128 (initial_a * max_a_change); ok (leb future_a most)
    | false ↦ do scaled ← fit 128 (future_a * max_a_change); ok (leb initial_a scaled)
  ]

  module _ {S : Type 0} (update_plane : Stable → S → Result S) where
    unfoldable pub ramp_a : Env → Stable × S → Address → ℕ → ℕ → Result (Stable × S)
    unfolding require_operations_admin_or_owner a is_slow
    ramp_a e (p, s) admin future_a future_time = do
      require_auth e admin
      require_operations_admin_or_owner p.access admin
      ready ← fit 64 (p.initial_a_time + min_ramp_time)
      panic_if (ltb e.timestamp ready) (stableswap ramp_too_early)
      soonest ← fit 64 (e.timestamp + min_ramp_time)
      panic_if (ltb future_time soonest) (stableswap ramp_time_less_than_minimum)
      initial_a ← a e p
      panic_if (not (ltb 0 future_a && ltb future_a max_a)) (stableswap ramp_over_max)
      slow ← is_slow initial_a future_a
      panic_if (not slow) (stableswap ramp_too_fast)
      let ramped = put_ramp p initial_a future_a e.timestamp future_time
      s' ← update_plane ramped s
      ok (ramped, s')

    unfoldable pub stop_ramp_a : Env → Stable × S → Address → Result (Stable × S)
    unfolding require_operations_admin_or_owner a
    stop_ramp_a e (p, s) admin = do
      require_auth e admin
      require_operations_admin_or_owner p.access admin
      current_a ← a e p
      let stopped = put_ramp p current_a current_a e.timestamp e.timestamp
      s' ← update_plane stopped s
      ok (stopped, s')
