-- ===== src/Stableswap/Swap/Curve.antt =====
-- The swaps of the stableswap pool taken apart, and their output against the curve.
use soroban_amm.Prelude.{ℕ, ◌+◌, ◌-◌, ◌*◌, ◌/◌, ◌≤◌, ◌<◌, ◌≡◌, arith, List, length}
use soroban_amm.Prelude.Arith.{div_bounds}
use soroban_amm.Host.{Address, Env, Math, Result, ok, sub_checked, div_checked}
use soroban_amm.Host.Integer.{as_i128}
use soroban_amm.Pool.State.{Outside}
use soroban_amm.Stableswap.State.{Stable, fee_denominator, get, get_precision_mul, xp}
use soroban_amm.Stableswap.Ramp.{a}
use soroban_amm.Stableswap.Invariant.{get_d}
use soroban_amm.Stableswap.Solve.{get_y, known_at, accumulate}
use soroban_amm.Stableswap.Solve.Root.{get_y-IsRoot}
use soroban_amm.Stableswap.Reserves.{sync_reserves}
use soroban_amm.Stableswap.Swap.{
  output_at, grown_at, input_at, shrunk_at, with_fee, settle, refund, return_rest, swap,
  swap_strict_receive,
}

module _ ⦃m : Math⦄ {S : Type 0} (o : Outside S) (update_plane : Stable → S → Result S) where
  pub swap-eq-ok :
      (e : Env) (p₀ : Stable) (s : S) (user : Address) (i j n least out : ℕ) (done : Stable × S)
      → swap o update_plane e (p₀, s) user i j n least ≡ ok (out, done)
      → (p : Stable) × (sync_reserves o e p₀ s ≡ ok p)
        × (scales : List ℕ) × (get_precision_mul p.decimals ≡ ok scales)
        × (xs : List ℕ) × (xp p p.reserves ≡ ok xs)
        × (coin : Address) × (get p.tokens i ≡ ok coin)
        × (s₁ : S) × (o.transfer coin user e.current_contract (as_i128 n) s ≡ ok s₁)
        × (fee : ℕ) × (m.fixed_mul_ceil n p.fee fee_denominator ≡ ok fee)
        × (protocol_fee : ℕ) × (m.fixed_mul_ceil fee p.protocol_fee_fraction fee_denominator
            ≡ ok protocol_fee)
        × (x : ℕ) × (grown_at scales xs i n fee ≡ ok x)
        × (y : ℕ) × (get_y e p i j x xs ≡ ok y)
        × (output_at scales xs j y ≡ ok out)
        × (settle o update_plane e p user i j n out protocol_fee s₁ ≡ ok done)
        × (least ≤ out)
  unfolding swap
  swap-eq-ok e p₀ s user i j n least out done h = ground arith

  pub refund-eq-ok :
      (e : Env) (p : Stable) (s : S) (user coin : Address) (i j most n out fee : ℕ)
      (done : Stable × S)
      → refund o update_plane e p user (i, j) coin (most, n) out fee s ≡ ok done
      → (rest : ℕ) × (sub_checked most n ≡ ok rest)
        × (s₁ : S) × (return_rest o e coin user rest s ≡ ok s₁)
        × (settle o update_plane e p user i j n out fee s₁ ≡ ok done)
        × (n + rest ≡ most)
  unfolding refund
  refund-eq-ok e p s user coin i j most n out fee done h = ground arith

  pub strict-eq-ok :
      (e : Env) (p₀ : Stable) (s : S) (user : Address) (i j out most : ℕ)
      (result : ℕ × (Stable × S))
      → swap_strict_receive o update_plane e (p₀, s) user i j out most ≡ ok result
      → (p : Stable) × (sync_reserves o e p₀ s ≡ ok p)
        × (scales : List ℕ) × (get_precision_mul p.decimals ≡ ok scales)
        × (xs : List ℕ) × (xp p p.reserves ≡ ok xs)
        × (coin : Address) × (get p.tokens i ≡ ok coin)
        × (s₁ : S) × (o.transfer coin user e.current_contract (as_i128 most) s ≡ ok s₁)
        × (y : ℕ) × (shrunk_at scales xs j out ≡ ok y)
        × (x : ℕ) × (get_y e p j i y xs ≡ ok x)
        × (raw : ℕ) × (input_at scales xs i x ≡ ok raw)
        × (dx : ℕ) × (with_fee p raw ≡ ok dx)
        × (protocol_fee : ℕ) × (m.fixed_mul_ceil (dx - raw) p.protocol_fee_fraction fee_denominator
            ≡ ok protocol_fee)
        × (refund o update_plane e p user (i, j) coin (most, dx) out protocol_fee s₁ ≡ ok result.1)
        × (raw ≤ dx)
  unfolding swap_strict_receive
  strict-eq-ok e p₀ s user i j out most result h = ground arith

output_at-eq-ok :
    (scales xs : List ℕ) (j y out : ℕ)
    → output_at scales xs j y ≡ ok out
    → (held : ℕ) × (get xs j ≡ ok held)
      × (above : ℕ) × (sub_checked held y ≡ ok above)
      × (less : ℕ) × (sub_checked above 1 ≡ ok less)
      × (scale : ℕ) × (get scales j ≡ ok scale)
      × (div_checked less scale ≡ ok out)
unfolding output_at
output_at-eq-ok scales xs j y out h = ground arith

output-above :
    (scales xs : List ℕ) (j y out : ℕ)
    → output_at scales xs j y ≡ ok out
    → (held : ℕ) × (get xs j ≡ ok held)
      × (scale : ℕ) × (get scales j ≡ ok scale)
      × (y + 1 + out * scale ≤ held)
output-above scales xs j y out h =
    let (held, has, above, e₁, less, e₂, scale, e₃, quotient) =
      output_at-eq-ok scales xs j y out h in
    let pos : 0 < scale = ground arith in
    let e : out ≡ less / scale = ground arith in
    let exact : y + 1 + less ≡ held = ground arith in
    let (low, high) = div_bounds less scale pos in
    let product : out * scale ≤ less = rw e low in (held, has, scale, e₃, omega arith)

module _ ⦃m : Math⦄ {S : Type 0} (o : Outside S) (update_plane : Stable → S → Result S) where
  -- A swap that succeeds pays at least the given minimum and never past the curve: at the synced
  -- reserves in common precision, the balance of the token bought is, after the output, at least
  -- one unit above the `y` that `_get_y` finds for the balance of the token sold with the input in it
  -- less the fee, and at `y + 1` the left side of the pool's quadratic equation is above the right.
  pub swap-above_curve :
      (e : Env) (p₀ : Stable) (s : S) (user : Address) (i j n least out : ℕ) (done : Stable × S)
      → swap o update_plane e (p₀, s) user i j n least ≡ ok (out, done)
      → (least ≤ out)
        × (p : Stable) × (sync_reserves o e p₀ s ≡ ok p)
        × (scales : List ℕ) × (get_precision_mul p.decimals ≡ ok scales)
        × (xs : List ℕ) × (xp p p.reserves ≡ ok xs)
        × (fee : ℕ) × (m.fixed_mul_ceil n p.fee fee_denominator ≡ ok fee)
        × (x : ℕ) × (grown_at scales xs i n fee ≡ ok x)
        × (y : ℕ) × (get_y e p i j x xs ≡ ok y)
        × (held : ℕ) × (get xs j ≡ ok held)
        × (scale : ℕ) × (get scales j ≡ ok scale)
        × (y + 1 + out * scale ≤ held)
        × (amp : ℕ) × (a e p ≡ ok amp)
        × (d : ℕ) × (get_d (length p.tokens) xs amp ≡ ok d)
        × (c : ℕ) × (sum : ℕ) × (accumulate
              (length p.tokens)
              d
              j
              (known_at i x xs)
              0
              (length p.tokens)
              (d, 0)
            ≡ ok (c, sum))
        × (c * d / (amp * length p.tokens * length p.tokens) + d * (y + 1)
            < (y + 1) * (y + 1) + (sum + d / (amp * length p.tokens)) * (y + 1))
  swap-above_curve e p₀ s user i j n least out done h =
      let (
        p, sync, scales, scaled, xs, at_xs, _, _, _, _, fee, charged, _, _, x, grown, y, solved,
        paid, _, enough,
      ) =
        swap-eq-ok o update_plane e p₀ s user i j n least out done h in
      let (held, has, scale, has_scale, above) = output-above scales xs j y out paid in
      let (_, _, _, amp, now, d, invariant, c, sum, sums, root) =
        get_y-IsRoot e p i j x y xs solved in
      (
        enough, p, sync, scales, scaled, xs, at_xs, fee, charged, x, grown, y, solved, held, has,
        scale, has_scale, above, amp, now, d, invariant, c, sum, sums, root.1,
      )
