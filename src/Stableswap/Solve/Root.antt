-- ===== src/Stableswap/Solve/Root.antt =====
-- `_get_y` and the quadratic equation that it iterates on.
use soroban_amm.Prelude.{
  ℕ, zero, suc, ◌+◌, ◌-◌, ◌*◌, ◌/◌, ◌^◌, ◌≤◌, ◌<◌, ◌≡◌, ◌⊎◌, ap, arith, true, List, length, ◌≢◌,
  inl, inr,
}
use soroban_amm.Prelude.Arith.{div_bounds, four_mul-le-square, le_or_ge}
use soroban_amm.Host.{Env, Math, ok, fit}
use soroban_amm.Stableswap.Invariant.{is_within_one, get_d}
use soroban_amm.Stableswap.State.{Stable}
use soroban_amm.Stableswap.Ramp.{a}
use soroban_amm.Stableswap.Solve.{next_y, iterate_y, known_at, accumulate, solve, get_y}

-- `y` solves `y * y + (b - d) * y = c` up to one unit: at `y` the left side exceeds `c` by one at
-- most, and at `y + 1` it is above `c`.
abbrev pub IsRoot : ℕ → ℕ → ℕ → ℕ → Type 0
IsRoot c b d y =
    (y * y + b * y ≤ c + d * y + 1) × (c + d * (y + 1) < (y + 1) * (y + 1) + b * (y + 1))

within_one_iff : (x y : ℕ) → is_within_one x y ≡ true → (x ≤ y + 1) × (y ≤ x + 1)
unfolding is_within_one
within_one_iff x y h = ground arith

near_square : (r y : ℕ) → r ≤ y + 1 → y ≤ r + 1 → r * r + y * y ≤ 2 * (r * y) + 1
near_square r y le ge = elim (le_or_ge r y) [
  | inl h ↦
      let e : (y ≡ r) ⊎ (y ≡ r + 1) = grind arith in
      elim e [ inl same ↦ rw same (omega arith) | inr more ↦ rw more (omega arith) ]
  | inr h ↦
      let e : (r ≡ y) ⊎ (r ≡ y + 1) = grind arith in
      elim e [ inl same ↦ rw same (omega arith) | inr more ↦ rw more (omega arith) ]
]

-- A step of Newton's iteration that moves by one at most has found the root.
newton-IsRoot :
    (c b d w y r : ℕ)
    → w + d ≡ 2 * y + b
    → r * w ≤ y * y + c
    → y * y + c < (r + 1) * w
    → r ≤ y + 1
    → y ≤ r + 1
    → IsRoot c b d r
newton-IsRoot c b d w y r e low high le ge =
    let at_r : r * w + r * d ≡ 2 * (r * y) + r * b = omega (arith, ap (λ n. r * n) e) in
    let above : (r + 1) * w + (r + 1) * d ≡ 2 * ((r + 1) * y) + (r + 1) * b =
      omega (arith, ap (λ n. (r + 1) * n) e) in
    let square : r * r + y * y ≤ 2 * (r * y) + 1 = near_square r y le ge in
    (omega arith, omega (arith, four_mul-le-square (r + 1) y))

module _ ⦃m : Math⦄ where
  next_y-eq-ok :
      (c b d y r : ℕ)
      → next_y c b d y ≡ ok r
      → (d < 2 * y + b) × (r ≡ (y * y + c) / (2 * y + b - d))
  unfolding next_y
  next_y-eq-ok c b d y r h = ground (
    arith,
    m.mul_lem y y,
    m.add_lem (y * y) c,
    m.mul_lem 2 y,
    m.add_lem (2 * y) b,
    m.sub_lem (2 * y + b) d,
    m.div_lem (y * y + c) (2 * y + b - d),
  )

  next_y-IsRoot :
      (c b d y r : ℕ) → next_y c b d y ≡ ok r → is_within_one r y ≡ true → IsRoot c b d r
  next_y-IsRoot c b d y r h close =
      let (pos, e) = next_y-eq-ok c b d y r h in
      let (le, ge) = within_one_iff r y close in
      let w = 2 * y + b - d in
      let (low, high) = div_bounds (y * y + c) w (omega arith) in
      newton-IsRoot c b d w y r (omega arith) (rw e low) (rw e (omega arith)) le ge

  iterate_y-eq-ok :
      (turns c b d y r : ℕ)
      → iterate_y (suc turns) c b d y ≡ ok r
      → (v : ℕ) × (next_y c b d y ≡ ok v)
        × (((is_within_one v y ≡ true) × (v ≡ r) × (r < 2 ^ 128))
            ⊎ (iterate_y turns c b d v ≡ ok r))
  unfolding iterate_y
  iterate_y-eq-ok turns c b d y r h = ground arith

  iterate_y-IsRoot :
      (turns c b d y r : ℕ) → iterate_y turns c b d y ≡ ok r → IsRoot c b d r × (r < 2 ^ 128)
  unfolding iterate_y
  iterate_y-IsRoot zero c b d y r h = ground arith
  iterate_y-IsRoot (suc turns) c b d y r h =
      let (v, step, rest) = iterate_y-eq-ok turns c b d y r h in
      elim rest [
        | inl (close, same, small) ↦ (rw same at (next_y-IsRoot c b d y v step close), small)
        | inr later ↦ iterate_y-IsRoot turns c b d v r later
      ]

  solve-IsRoot :
      (n ann d c s y : ℕ)
      → solve n ann d (c, s) ≡ ok y
      → IsRoot (c * d / (ann * n)) (s + d / ann) d y
  unfolding solve
  solve-IsRoot n ann d c s y h =
      let run : iterate_y 255 (c * d / (ann * n)) (s + d / ann) d d ≡ ok y = ground (
        arith,
        m.mul_lem c d,
        m.mul_lem ann n,
        m.div_lem (c * d) (ann * n),
        m.div_lem d ann,
        m.add_lem s (d / ann),
      ) in
      (iterate_y-IsRoot 255 (c * d / (ann * n)) (s + d / ann) d d y run).0

  get_y-eq-ok :
      (e : Env) (p : Stable) (i j x y : ℕ) (xs : List ℕ)
      → get_y e p i j x xs ≡ ok y
      → (amp : ℕ) × (a e p ≡ ok amp)
        × (d : ℕ) × (get_d (length p.tokens) xs amp ≡ ok d)
        × (ann : ℕ) × (fit 128 (amp * length p.tokens) ≡ ok ann)
        × (sums : ℕ × ℕ) × (accumulate
              (length p.tokens)
              d
              j
              (known_at i x xs)
              0
              (length p.tokens)
              (d, 0)
            ≡ ok sums)
        × (solve (length p.tokens) ann d sums ≡ ok y)
        × (i ≢ j)
        × (i < length p.tokens)
        × (j < length p.tokens)
  unfolding get_y known_at
  get_y-eq-ok e p i j x y xs h = ground arith

  -- If `_get_y` returns `y`, the two tokens differ and are tokens of the pool, and for the present
  -- coefficient, the invariant `D` of the balances and the sums over the known balances, `y` solves
  -- the pool's quadratic equation up to one unit: at `y` the left side exceeds the right by one at
  -- most, and at `y + 1` it is above it.
  pub get_y-IsRoot :
      (e : Env) (p : Stable) (i j x y : ℕ) (xs : List ℕ)
      → get_y e p i j x xs ≡ ok y
      → (i ≢ j)
        × (i < length p.tokens)
        × (j < length p.tokens)
        × (amp : ℕ) × (a e p ≡ ok amp)
        × (d : ℕ) × (get_d (length p.tokens) xs amp ≡ ok d)
        × (c : ℕ) × (sum : ℕ) × (accumulate
              (length p.tokens)
              d
              j
              (known_at i x xs)
              0
              (length p.tokens)
              (d, 0)
            ≡ ok (c, sum))
        × IsRoot
            (c * d / (amp * length p.tokens * length p.tokens))
            (sum + d / (amp * length p.tokens))
            d
            y
  get_y-IsRoot e p i j x y xs h =
      let (amp, now, d, invariant, ann, fits, (c, sum), run, solved, ne, in_i, in_j) =
        get_y-eq-ok e p i j x y xs h in
      let same : ann ≡ amp * length p.tokens = ground arith in
      let root : IsRoot (c * d / (ann * length p.tokens)) (sum + d / ann) d y =
        solve-IsRoot (length p.tokens) ann d c sum y solved in
      (ne, in_i, in_j, amp, now, d, invariant, c, sum, run, rw same at root)
