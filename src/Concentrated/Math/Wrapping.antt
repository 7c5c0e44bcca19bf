-- ===== src/Concentrated/Math/Wrapping.antt =====
-- liquidity_pool_concentrated/src/math.rs: sums and differences of fee growth, modulo 2 ^ 256.
use soroban_amm.Prelude.{ℕ, ◌+◌, ◌-◌, ◌%◌, ◌^◌, ◌<◌, ◌≡◌, ap, arith, ◌∙◌}
use soroban_amm.Host.{Math, ok, ◌>>=◌}
use soroban_amm.Concentrated.U512.{max_u256}
use soroban_amm.Concentrated.Math.{wrapping_sub_u256, wrapping_add_u256}

-- Difference and sum modulo 2 ^ 256.
abbrev pub sub_mod : ℕ → ℕ → ℕ
sub_mod a b = (a + (2 ^ 256 - b)) % 2 ^ 256

abbrev pub add_mod : ℕ → ℕ → ℕ
add_mod a b = (a + b) % 2 ^ 256

module _ ⦃m : Math⦄ where
  pub wrapping_sub_lem :
      (a b : ℕ) → a < 2 ^ 256 → b < 2 ^ 256 → wrapping_sub_u256 a b ≡ ok (sub_mod a b)
  unfolding wrapping_sub_u256
  wrapping_sub_lem a b ha hb = ground (
    arith,
    m.sub_lem a b,
    m.sub_lem max_u256 b,
    m.add_lem (max_u256 - b) a,
    m.add_lem (max_u256 - b + a) 1,
  )

  pub wrapping_add_lem :
      (a b : ℕ) → a < 2 ^ 256 → b < 2 ^ 256 → wrapping_add_u256 a b ≡ ok (add_mod a b)
  unfolding wrapping_add_u256
  wrapping_add_lem a b ha hb = ground (
    arith,
    m.sub_lem max_u256 a,
    m.add_lem a b,
    m.sub_lem b (max_u256 - a),
    m.sub_lem (b - (max_u256 - a)) 1,
  )

  -- For 256-bit numbers, `wrapping_add_u256` and `wrapping_sub_u256` always succeed and undo each
  -- other, whichever of them wraps around.
  pub wrapping_sub-wrapping_add :
      (a b : ℕ)
      → a < 2 ^ 256
      → b < 2 ^ 256
      → ((wrapping_add_u256 a b >>= λ sum. wrapping_sub_u256 sum b) ≡ ok a)
        × ((wrapping_sub_u256 a b >>= λ rest. wrapping_add_u256 rest b) ≡ ok a)
  wrapping_sub-wrapping_add a b ha hb =
      let sum = wrapping_add_lem a b ha hb in
      let rest = wrapping_sub_lem a b ha hb in
      let back = wrapping_sub_lem (add_mod a b) b (omega arith) hb in
      let forth = wrapping_add_lem (sub_mod a b) b (omega arith) hb in
      let same : sub_mod (add_mod a b) b ≡ a = omega arith in
      let same' : add_mod (sub_mod a b) b ≡ a = omega arith in
      (rw sum (back ∙ ap ok same), rw rest (forth ∙ ap ok same'))
