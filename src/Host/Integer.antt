-- ===== src/Host/Integer.antt =====
-- Signed integers over the native numbers, and the checked `i128` of the contracts.
use soroban_amm.Prelude.{
  ℕ, suc, ◌+◌, ◌-◌, ◌^◌, ◌≤◌, ◌<◌, ◌≡◌, ap, Bool, arith, ltb, leb, if◌then◌else◌,
}
use soroban_amm.Host.Errors.{Result, ok, err, host, trap}

-- `negsuc n` is -(n + 1).
pub data ℤ : Type 0 where
  pos : ℕ → ℤ
  negsuc : ℕ → ℤ

abbrev pub pos_part : ℤ → ℕ
pos_part (pos n) = n
pos_part (negsuc n) = 0

abbrev pub neg_part : ℤ → ℕ
neg_part (pos n) = 0
neg_part (negsuc n) = suc n

abbrev pub sub_ℕ : ℕ → ℕ → ℤ
sub_ℕ a b = if leb b a then pos (a - b) else negsuc (b - a - 1)

infixl 65 ◌+ℤ◌ ◌-ℤ◌
infix 50 ◌≤ℤ◌
unfoldable pub ◌+ℤ◌ : ℤ → ℤ → ℤ
a +ℤ b = sub_ℕ (pos_part a + pos_part b) (neg_part a + neg_part b)

unfoldable pub ◌-ℤ◌ : ℤ → ℤ → ℤ
a -ℤ b = sub_ℕ (pos_part a + neg_part b) (neg_part a + pos_part b)

abbrev pub ◌≤ℤ◌ : ℤ → ℤ → Type 0
a ≤ℤ b = pos_part a + neg_part b ≤ pos_part b + neg_part a

abbrev pub ltb_ℤ : ℤ → ℤ → Bool
ltb_ℤ a b = ltb (pos_part a + neg_part b) (pos_part b + neg_part a)

pub +ℤ_parts :
    (a b : ℤ)
    → pos_part (a +ℤ b) + neg_part a + neg_part b ≡ neg_part (a +ℤ b) + pos_part a + pos_part b
unfolding ◌+ℤ◌
+ℤ_parts a b = ground arith

pub -ℤ_parts :
    (a b : ℤ)
    → pos_part (a -ℤ b) + neg_part a + pos_part b ≡ neg_part (a -ℤ b) + pos_part a + neg_part b
unfolding ◌-ℤ◌
-ℤ_parts a b = ground arith

pub eq_of_parts : (a b : ℤ) → pos_part a + neg_part b ≡ pos_part b + neg_part a → a ≡ b
eq_of_parts a b h = ground arith

pub ruleset int_laws = (arith, +ℤ_parts, -ℤ_parts, eq_of_parts)

-- An `i128`; a value out of range is an overflow, which traps.
abbrev pub fit_i128 : ℤ → Result ℤ
fit_i128 (pos n) = if ltb n (2 ^ 127) then ok (pos n) else err (host trap)
fit_i128 (negsuc n) = if ltb n (2 ^ 127) then ok (negsuc n) else err (host trap)

-- `value as u128` and `value as i128`, which wrap.
unfoldable pub as_u128 : ℤ → ℕ
as_u128 (pos n) = n
as_u128 (negsuc n) = 2 ^ 128 - suc n

unfoldable pub as_i128 : ℕ → ℤ
as_i128 n = if ltb n (2 ^ 127) then pos n else negsuc (2 ^ 128 - n - 1)

-- An amount that one place gains is what the whole gains: solves the equation of an update.
pub +ℤ_gain : (t b s x : ℤ) → t +ℤ b ≡ s +ℤ (b +ℤ x) → t ≡ s +ℤ x
+ℤ_gain t b s x h = grind (int_laws, ap (λ (z : ℤ). pos_part z) h, ap (λ (z : ℤ). neg_part z) h)

pub +ℤ_loss : (t b s x : ℤ) → t +ℤ b ≡ s +ℤ (b -ℤ x) → t ≡ s +ℤ (pos 0 -ℤ x)
+ℤ_loss t b s x h = grind (int_laws, ap (λ (z : ℤ). pos_part z) h, ap (λ (z : ℤ). neg_part z) h)
