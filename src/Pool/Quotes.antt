-- ===== src/Pool/Quotes.antt =====
-- The two quotes of a swap: each is the best for the pool's product, and they agree.
use native.Mathlib.Nat.{mul-le-mul, le_refl, le_trans}
use soroban_amm.Prelude.{ℕ, ◌+◌, ◌-◌, ◌*◌, ◌/◌, ◌≤◌, ◌<◌, ◌≡◌, arith}
use soroban_amm.Prelude.Arith.{
  div_bounds, div-le_of, le-div_of, le-ceil_mul, ceil-le_of, keeps_of_mul-le, mul-le_of_keeps,
  keeps_of_left, left_of_keeps, mul-le_of_le-div,
}
use soroban_amm.Host.{Math, ok}
use soroban_amm.Pool.Formulas.{fee_multiplier, get_amount_out, get_amount_out_strict_receive}

module _ ⦃m : Math⦄ where
  -- A quote in numbers: the input less the fee is `x`, rounded down, and the output is the largest
  -- that keeps the product of the reserves.
  pub get_amount_out-eq-ok :
      (f n rs rb : ℕ) {out fee : ℕ}
      → 0 < n
      → get_amount_out f n rs rb ≡ ok (out, fee)
      → let x = n * (fee_multiplier - f) / fee_multiplier in
        (f ≤ fee_multiplier) × (fee + x ≡ n) × (0 < rs + x) × (out ≡ x * rb / (rs + x))
  unfolding get_amount_out
  get_amount_out-eq-ok f n rs rb pos h =
      let x = n * (fee_multiplier - f) / fee_multiplier in
      ground (arith, m.fixed_mul_floor_lem x rb (rs + x))

  pub strict_receive-eq-ok :
      (f out rs rb : ℕ) {n fee : ℕ}
      → 0 < out
      → get_amount_out_strict_receive f out rs rb ≡ ok (n, fee)
      → let x = (rs * out + (rb - out - 1)) / (rb - out) in
        (out < rb)
        × (f < fee_multiplier)
        × (fee + x ≡ n)
        × (n ≡ (x * fee_multiplier + (fee_multiplier - f - 1)) / (fee_multiplier - f))
  unfolding get_amount_out_strict_receive
  strict_receive-eq-ok f out rs rb pos h =
      let x = (rs * out + (rb - out - 1)) / (rb - out) in
      ground (
        arith,
        m.fixed_mul_ceil_lem rs out (rb - out),
        m.fixed_mul_ceil_lem x fee_multiplier (fee_multiplier - f),
      )

-- The product of the reserves `rs` and `rb` does not fall when `x` comes in and `out` goes out.
abbrev pub Keeps : ℕ → ℕ → ℕ → ℕ → Type 0
Keeps rs rb x out = rs * rb ≤ (rs + x) * (rb - out)

-- What makes an output right for an input `x` after the fee: it is covered by the reserve, it keeps
-- the product, and no larger output does.
abbrev pub IsBest : ℕ → ℕ → ℕ → ℕ → Type 0
IsBest rs rb x out = (out ≤ rb) × Keeps rs rb x out × ((o : ℕ) → o ≤ rb → Keeps rs rb x o → o ≤ out)

floor-IsBest : (rs rb x : ℕ) → 0 < rs + x → IsBest rs rb x (x * rb / (rs + x))
floor-IsBest rs rb x h =
    let out = x * rb / (rs + x) in
    let q = div_bounds (x * rb) (rs + x) h in
    let le : out ≤ rb = div-le_of (x * rb) (rs + x) rb h (omega arith) in
    (
      le,
      keeps_of_mul-le rs x rb out le q.0,
      λ o ho keep. le-div_of (x * rb) (rs + x) o h (mul-le_of_keeps rs x rb o ho keep),
    )

-- What makes an input right for an output: the part `x` of it after the fee is the least that keeps
-- the product, and the input `n` is the least that leaves `x`.
abbrev pub IsLeast : ℕ → ℕ → ℕ → ℕ → ℕ → ℕ → Type 0
IsLeast f rs rb out n x =
    Keeps rs rb x out
    × ((y : ℕ) → Keeps rs rb y out → x ≤ y)
    × (x ≤ n * (fee_multiplier - f) / fee_multiplier)
    × ((k : ℕ) → x ≤ k * (fee_multiplier - f) / fee_multiplier → n ≤ k)

ceil-IsLeast :
    (f rs rb out : ℕ)
    → out < rb
    → f < fee_multiplier
    → let x = (rs * out + (rb - out - 1)) / (rb - out) in
      IsLeast f rs rb out ((x * fee_multiplier + (fee_multiplier - f - 1)) / (fee_multiplier - f)) x
ceil-IsLeast f rs rb out small fees =
    let left = rb - out in
    let kept = fee_multiplier - f in
    let x = (rs * out + (left - 1)) / left in
    let some_left : 0 < left = omega arith in
    let some_kept : 0 < kept = omega arith in
    (
      keeps_of_left rs x rb out (omega arith) (le-ceil_mul (rs * out) left some_left),
      λ y keep.
          ceil-le_of (rs * out) left y some_left (left_of_keeps rs y rb out (omega arith) keep),
      le-div_of _ fee_multiplier x (omega arith) (le-ceil_mul (x * fee_multiplier) kept some_kept),
      λ k le.
          ceil-le_of (x * fee_multiplier) kept k some_kept
            (mul-le_of_le-div (k * kept) fee_multiplier x (omega arith) le),
    )

module _ ⦃m : Math⦄ where
  -- The output that `get_amount_out` quotes for a positive input is the largest one that does not
  -- lower the product of the reserves, counting the input less the fee.
  pub get_amount_out-IsBest :
      (f n rs rb out fee : ℕ)
      → 0 < n
      → get_amount_out f n rs rb ≡ ok (out, fee)
      → (fee ≤ n) × IsBest rs rb (n - fee) out
  get_amount_out-IsBest f n rs rb out fee pos h =
      let x = n * (fee_multiplier - f) / fee_multiplier in
      let (_, split, den, e) = get_amount_out-eq-ok f n rs rb pos h in
      let ex : n - fee ≡ x = omega arith in (omega arith, rw (ex, e) (floor-IsBest rs rb x den))

  -- The input that `get_amount_out_strict_receive` quotes for a positive output is the least one:
  -- less the fee it is the smallest amount that keeps the product of the reserves, and no smaller
  -- input leaves that amount after the fee. It is quoted only for outputs below the reserve.
  pub strict_receive-IsLeast :
      (f out rs rb n fee : ℕ)
      → 0 < out
      → get_amount_out_strict_receive f out rs rb ≡ ok (n, fee)
      → (out < rb) × (fee ≤ n) × IsLeast f rs rb out n (n - fee)
  strict_receive-IsLeast f out rs rb n fee pos h =
      let x = (rs * out + (rb - out - 1)) / (rb - out) in
      let (small, fees, split, e) = strict_receive-eq-ok f out rs rb pos h in
      let ex : n - fee ≡ x = omega arith in
      (small, omega arith, rw (ex, e) (ceil-IsLeast f rs rb out small fees))

  -- The quotes agree: selling the positive input that is quoted for a positive output buys at
  -- least that output.
  pub strict_receive-get_amount_out :
      (f out rs rb n fee out' fee' : ℕ)
      → 0 < out
      → 0 < n
      → get_amount_out_strict_receive f out rs rb ≡ ok (n, fee)
      → get_amount_out f n rs rb ≡ ok (out', fee')
      → out ≤ out'
  strict_receive-get_amount_out f out rs rb n fee out' fee' pos posn h h' =
      let x' = n * (fee_multiplier - f) / fee_multiplier in
      let (small, _, least) = strict_receive-IsLeast f out rs rb n fee pos h in
      let (_, split, _, _) = get_amount_out-eq-ok f n rs rb posn h' in
      let best = (get_amount_out-IsBest f n rs rb out' fee' posn h').1.2 in
      let enough = least.2 in
      let ex : n - fee' ≡ x' = omega arith in
      let more : rs + (n - fee) ≤ rs + (n - fee') = omega arith in
      best out (omega arith) (le_trans least.0 (mul-le-mul more (le_refl (rb - out))))
