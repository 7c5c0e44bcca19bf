-- ===== src/Stableswap/Invariant/Balanced.antt =====
-- `_get_d` on a pool of equal balances.
use native.Mathlib.Nat.{mul-le-mul}
use soroban_amm.Prelude.{
  ℕ, zero, suc, ◌+◌, ◌-◌, ◌*◌, ◌/◌, ◌^◌, ◌≤◌, ◌<◌, ◌≡◌, ◌==◌, arith, true, false, ap, refl, ◌∙◌,
  List, [], ◌∷◌,
}
use soroban_amm.Prelude.Arith.{div-le_of, le-div_of}
use soroban_amm.Host.{Math, Result, ok, ◌>>=◌, fit}
use soroban_amm.Stableswap.Invariant.{is_within_one, sum_of, product_of, next_d, iterate_d, get_d}

-- `n` balances of `x` each.
abbrev pub repeat : ℕ → ℕ → List ℕ
repeat zero x = []
repeat (suc n) x = x ∷ repeat n x

quotient_mul : (a b : ℕ) → 0 < b → a * b / b ≡ a
quotient_mul a b pos =
    let up = div-le_of (a * b) b a pos (omega arith) in
    let down = le-div_of (a * b) b a pos (omega arith) in omega arith

factor-le : (k d : ℕ) → 0 < k → d ≤ k * d
factor-le k d pos =
    let h : 1 * d ≤ k * d = mul-le-mul {n₂ = k} {m₂ = d} pos (omega arith) in omega arith

module _ ⦃m : Math⦄ where
  sum_of-repeat : (s k x : ℕ) → s + k * x < 2 ^ 256 → sum_of s (repeat k x) ≡ ok (s + k * x)
  unfolding sum_of
  sum_of-repeat s zero x small = ap ok (omega arith)
  sum_of-repeat s (suc k) x small =
      let all : s + x + k * x ≡ s + suc k * x = omega arith in
      let step : m.add s x ≡ ok (s + x) = ground (arith, m.add_lem s x) in
      let rest = sum_of-repeat (s + x) k x (omega arith) in rw step (rest ∙ ap ok all)

  product_of-repeat :
      (n d k x : ℕ) → x * n ≡ d → 0 < d → d < 2 ^ 128 → product_of n d d (repeat k x) ≡ ok d
  unfolding product_of
  product_of-repeat n d zero x e pos small = refl
  product_of-repeat n d (suc k) x e pos small =
      let square : d * d ≤ (2 ^ 128 - 1) * (2 ^ 128 - 1) =
        mul-le-mul {n₂ = 2 ^ 128 - 1} {m₂ = 2 ^ 128 - 1} (omega arith) (omega arith) in
      let scaled : fit 128 (x * n) ≡ ok d = rw e (ground arith) in
      let step : m.fixed_mul_floor_u256 d d d ≡ ok d =
        m.fixed_mul_floor_u256_lem d d d pos (omega arith) ∙ ap ok (quotient_mul d d pos) in
      rw (scaled, step) (product_of-repeat n d k x e pos small)

  next_d-balanced :
      (n ann d x : ℕ)
      → 0 < n
      → 0 < ann
      → x * n ≡ d
      → 0 < d
      → d < 2 ^ 128
      → (ann + n) * d * d < 2 ^ 256
      → next_d n ann d (repeat n x) d ≡ ok d
  unfolding next_d
  next_d-balanced n ann d x pos_n pos_ann e pos small fits =
      let k = (ann + n) * d in
      let big : k ≤ k * d = omega (arith, factor-le d k pos) in
      let left : ann * d + d * n ≡ k = omega arith in
      let less : (ann - 1) + 1 ≡ ann = omega arith in
      let less_d : (ann - 1) * d + d ≡ ann * d = omega (arith, ap (λ t. t * d) less) in
      let right : (ann - 1) * d + (n + 1) * d ≡ k = omega (arith, less_d, left) in
      let n_le : n ≤ n * d = omega (arith, factor-le d n pos) in
      let product = product_of-repeat n d n x e pos small in
      let e₁ : m.mul ann d ≡ ok (ann * d) = ground (arith, m.mul_lem ann d) in
      let e₂ : m.mul d n ≡ ok (d * n) = ground (arith, m.mul_lem d n) in
      let e₃ : m.add (ann * d) (d * n) ≡ ok k = ground (arith, m.add_lem (ann * d) (d * n)) in
      let ann_le : ann ≤ ann * d = omega (arith, factor-le d ann pos) in
      let e₄ : m.sub ann 1 ≡ ok (ann - 1) = ground (arith, m.sub_lem ann 1) in
      let e₅ : m.mul (ann - 1) d ≡ ok ((ann - 1) * d) = ground (arith, m.mul_lem (ann - 1) d) in
      let e₆ : m.add n 1 ≡ ok (n + 1) = ground (arith, m.add_lem n 1) in
      let e₇ : m.mul (n + 1) d ≡ ok ((n + 1) * d) = ground (arith, m.mul_lem (n + 1) d) in
      let e₈ : m.add ((ann - 1) * d) ((n + 1) * d) ≡ ok k =
        ground (arith, m.add_lem ((ann - 1) * d) ((n + 1) * d)) in
      let k_pos : 0 < k = omega arith in
      let swapped : k * d ≡ d * k = omega arith in
      let cancel : k * d / k ≡ d = rw swapped (quotient_mul d k k_pos) in
      let last : m.fixed_mul_floor_u256 k d k ≡ ok d =
        m.fixed_mul_floor_u256_lem k d k k_pos fits ∙ ap ok cancel in
      rw (product, e₁, e₂, e₃, e₄, e₅, e₆, e₇, e₈) last

  iterate_d-fixed :
      (turns n ann s d : ℕ) (xs : List ℕ)
      → next_d n ann s xs d ≡ ok d
      → iterate_d (suc turns) n ann s xs d ≡ ok d
  unfolding iterate_d is_within_one
  iterate_d-fixed turns n ann s d xs h = ground arith

  -- For `n` balances of `x` each, with `n`, `x` and the coefficient `amp` positive, `x * n` and
  -- `amp * n` below 2 ^ 128 and `(amp * n + n) * (x * n) * (x * n)` below 2 ^ 256, `_get_d` returns
  -- exactly the sum `x * n` of the balances.
  pub get_d-balanced :
      (n x amp : ℕ)
      → 0 < n
      → 0 < x
      → 0 < amp
      → x * n < 2 ^ 128
      → amp * n < 2 ^ 128
      → (amp * n + n) * (x * n) * (x * n) < 2 ^ 256
      → get_d n (repeat n x) amp ≡ ok (x * n)
  unfolding get_d
  get_d-balanced n x amp pos_n pos_x pos_amp small small_ann fits =
      let d = x * n in
      let pos : 0 < d = omega (arith, factor-le x n pos_x) in
      let pos_ann : 0 < amp * n = omega (arith, factor-le amp n pos_amp) in
      let total : 0 + n * x ≡ d = omega arith in
      let sum : sum_of 0 (repeat n x) ≡ ok d = sum_of-repeat 0 n x (omega arith) ∙ ap ok total in
      let some_left : d == 0 ≡ false = ground arith in
      let ann : fit 128 (amp * n) ≡ ok (amp * n) = ground arith in
      let turn = next_d-balanced n (amp * n) d x pos_n pos_ann refl pos small fits in
      let done = iterate_d-fixed 254 n (amp * n) d d (repeat n x) turn in
      let middle : elim (d == 0) as (λ b. Result ℕ) [
        | true ↦ ok 0
        | false ↦ do ann ← fit 128 (amp * n); iterate_d 255 n ann d (repeat n x) d
      ]
          ≡ ok d =
        rw (some_left, ann) done in
      rw sum middle
