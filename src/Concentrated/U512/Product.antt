-- ===== src/Concentrated/U512/Product.antt =====
-- The 512-bit product is exact.
use native.Mathlib.Nat.{mul-le-mul}
use soroban_amm.Prelude.{
  ℕ, ◌+◌, ◌-◌, ◌*◌, ◌/◌, ◌%◌, ◌^◌, ◌≤◌, ◌<◌, ◌≡◌, leb, Bool, refl, sym, arith, if◌then◌else◌,
}
use soroban_amm.Host.{Math, ok}
use soroban_amm.Concentrated.U512.{max_u256, lo128, wrapping_add, u256_full_mul}

module _ ⦃m : Math⦄ where
  pub lo128_lem : (a : ℕ) → a < 2 ^ 256 → lo128 a ≡ ok (a % 2 ^ 128)
  unfolding lo128
  lo128_lem a h = ground (
    arith,
    m.shr_lem a 128,
    m.shl_lem (a / 2 ^ 128) 128,
    m.sub_lem a (a / 2 ^ 128 * 2 ^ 128 % 2 ^ 256),
  )

  -- The sum without its carry, and the carry.
  pub wrapping_add_lem :
      (a b : ℕ)
      → a < 2 ^ 256
      → b < 2 ^ 256
      → wrapping_add a b ≡ ok ((a + b) % 2 ^ 256, leb (2 ^ 256) (a + b))
  unfolding wrapping_add
  wrapping_add_lem a b ha hb = ground (
    arith,
    m.sub_lem max_u256 a,
    m.add_lem a b,
    m.sub_lem b (max_u256 - a),
    m.sub_lem (b - (max_u256 - a)) 1,
  )

-- Schoolbook multiplication in numbers: the halves of the factors and the parts that are added.
halves : (a : ℕ) → a ≡ a / 2 ^ 128 * 2 ^ 128 + a % 2 ^ 128
halves a = omega arith

product_of_halves :
    (a b ah al bh bl : ℕ)
    → a ≡ ah * 2 ^ 128 + al
    → b ≡ bh * 2 ^ 128 + bl
    → a * b ≡ ah * bh * 2 ^ 256 + (ah * bl + al * bh) * 2 ^ 128 + al * bl
product_of_halves a b ah al bh bl p q = rw (p, q) (omega arith)

small_product : (x y : ℕ) → x < 2 ^ 128 → y < 2 ^ 128 → x * y ≤ (2 ^ 128 - 1) * (2 ^ 128 - 1)
small_product x y p q = mul-le-mul {n₂ = 2 ^ 128 - 1} {m₂ = 2 ^ 128 - 1} (omega arith) (omega arith)

-- The high half of a sum of partial products, with the carries.
abbrev high : ℕ → ℕ → ℕ → ℕ
high hh cross ll =
    hh
    + cross % 2 ^ 256 / 2 ^ 128
    + cross / 2 ^ 256 * 2 ^ 128
    + (ll + cross % 2 ^ 256 % 2 ^ 128 * 2 ^ 128) / 2 ^ 256

high_lem :
    (hh cross ll p : ℕ)
    → p ≡ hh * 2 ^ 256 + cross * 2 ^ 128 + ll
    → (high hh cross ll ≡ p / 2 ^ 256)
      × ((ll + cross % 2 ^ 256 % 2 ^ 128 * 2 ^ 128) % 2 ^ 256 ≡ p % 2 ^ 256)
high_lem hh cross ll p e = omega arith

module _ ⦃m : Math⦄ where
  carry_lem : (s : ℕ) → s < 2 ^ 257 → (if leb (2 ^ 256) s then 1 else 0) ≡ s / 2 ^ 256
  carry_lem s h = ground arith

  mul_fits : (x y : ℕ) → x * y < 2 ^ 256 → m.mul x y ≡ ok (x * y)
  mul_fits x y h = ground (arith, m.mul_lem x y)

  add_fits : (x y : ℕ) → x + y < 2 ^ 256 → m.add x y ≡ ok (x + y)
  add_fits x y h = ground (arith, m.add_lem x y)

  shift_fits : (x : ℕ) → x < 2 ^ 128 → m.shl x 128 ≡ x * 2 ^ 128
  shift_fits x h = omega (arith, m.shl_lem x 128 (omega arith))

  -- The calls of the product in order, each with its result.
  mul_run :
      (a b al ah bl bh ll hl lh hh c cl sh lo ch h₁ h₂ h k₁ k₂ : ℕ) (k k' : Bool)
      → lo128 a ≡ ok al
      → m.shr a 128 ≡ ah
      → lo128 b ≡ ok bl
      → m.shr b 128 ≡ bh
      → m.mul al bl ≡ ok ll
      → m.mul ah bl ≡ ok hl
      → m.mul al bh ≡ ok lh
      → m.mul ah bh ≡ ok hh
      → wrapping_add hl lh ≡ ok (c, k)
      → (if k then 1 else 0) ≡ k₁
      → lo128 c ≡ ok cl
      → m.shl cl 128 ≡ sh
      → wrapping_add ll sh ≡ ok (lo, k')
      → (if k' then 1 else 0) ≡ k₂
      → m.shr c 128 ≡ ch
      → m.add hh ch ≡ ok h₁
      → m.add h₁ (m.shl k₁ 128) ≡ ok h₂
      → m.add h₂ k₂ ≡ ok h
      → u256_full_mul a b ≡ ok (h, lo)
  unfolding u256_full_mul
  mul_run a b al ah bl bh ll hl lh hh c cl sh lo ch h₁ h₂ h k₁ k₂ k k' e₁ e₂ e₃ e₄ e₅ e₆ e₇ e₈ e₉ f₁
        f₂ f₃ f₄ f₅ f₆ f₇ f₈ f₉ =
      rw (u256_full_mul, e₁, e₂, e₃, e₄, e₅, e₆, e₇, e₈, e₉, f₁, f₂, f₃, f₄, f₅, f₆, f₇, f₈, f₉)
        refl

  -- The product of two 256-bit numbers is computed exactly, as a quotient and a remainder by
  -- `2 ^ 256`.
  pub u256_full_mul_lem :
      (a b : ℕ)
      → a < 2 ^ 256
      → b < 2 ^ 256
      → u256_full_mul a b ≡ ok (a * b / 2 ^ 256, a * b % 2 ^ 256)
  u256_full_mul_lem a b ha hb =
      let ah = a / 2 ^ 128 in
      let al = a % 2 ^ 128 in
      let bh = b / 2 ^ 128 in
      let bl = b % 2 ^ 128 in
      let ll = al * bl in
      let hl = ah * bl in
      let lh = al * bh in
      let hh = ah * bh in
      let cross = hl + lh in
      let c = cross % 2 ^ 256 in
      let sh = c % 2 ^ 128 * 2 ^ 128 in
      let small_ll : ll ≤ (2 ^ 128 - 1) * (2 ^ 128 - 1) =
        small_product al bl (omega arith) (omega arith) in
      let small_hl : hl ≤ (2 ^ 128 - 1) * (2 ^ 128 - 1) =
        small_product ah bl (omega arith) (omega arith) in
      let small_lh : lh ≤ (2 ^ 128 - 1) * (2 ^ 128 - 1) =
        small_product al bh (omega arith) (omega arith) in
      let small_hh : hh ≤ (2 ^ 128 - 1) * (2 ^ 128 - 1) =
        small_product ah bh (omega arith) (omega arith) in
      let split : a * b ≡ hh * 2 ^ 256 + cross * 2 ^ 128 + ll =
        product_of_halves a b ah al bh bl (halves a) (halves b) in
      let small : a * b ≤ (2 ^ 256 - 1) * (2 ^ 256 - 1) =
        mul-le-mul {n₂ = 2 ^ 256 - 1} {m₂ = 2 ^ 256 - 1} (omega arith) (omega arith) in
      let (e_hi, e_lo) = high_lem hh cross ll (a * b) split in
      let h₁ = hh + c / 2 ^ 128 in
      let h₂ = h₁ + cross / 2 ^ 256 * 2 ^ 128 in
      let run : u256_full_mul a b ≡ ok (high hh cross ll, (ll + sh) % 2 ^ 256) =
        mul_run a b al ah bl bh ll hl lh hh c (c % 2 ^ 128) sh ((ll + sh) % 2 ^ 256) (c / 2 ^ 128)
          h₁ h₂ (high hh cross ll) (cross / 2 ^ 256) ((ll + sh) / 2 ^ 256) (leb (2 ^ 256) cross)
          (leb (2 ^ 256) (ll + sh)) (lo128_lem a ha) (m.shr_lem a 128 (omega arith))
          (lo128_lem b hb) (m.shr_lem b 128 (omega arith)) (mul_fits al bl (omega arith))
          (mul_fits ah bl (omega arith)) (mul_fits al bh (omega arith))
          (mul_fits ah bh (omega arith)) (wrapping_add_lem hl lh (omega arith) (omega arith))
          (carry_lem cross (omega arith)) (lo128_lem c (omega arith))
          (shift_fits (c % 2 ^ 128) (omega arith))
          (wrapping_add_lem ll sh (omega arith) (omega arith)) (carry_lem (ll + sh) (omega arith))
          (m.shr_lem c 128 (omega arith)) (add_fits hh (c / 2 ^ 128) (omega arith))
          (rw (shift_fits (cross / 2 ^ 256) (omega arith)) (add_fits h₁ _ (omega arith)))
          (add_fits h₂ _ (omega arith)) in
      rw (sym e_hi, sym e_lo) run
