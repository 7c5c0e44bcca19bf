-- ===== src/Stableswap/State.antt =====
-- liquidity_pool_stableswap/src/storage.rs and normalize.rs: what an initialized pool stores, and its
-- amounts at one precision.
use soroban_amm.Prelude.{
  ℕ, zero, suc, ◌*◌, ◌^◌, Bool, Option, some, none, List, [], ◌∷◌, ltb, if◌then◌else◌,
}
use soroban_amm.Host.{Address, Result, ok, err, ◌>>=◌, host, trap, fit, div_checked}
use soroban_amm.Access.Store.{Access}

-- `DataKey`, with `total_shares` and `token_share` of token_share/src/lib.rs. `Precision` and
-- `PrecisionMul` only keep a function of the decimals, which are set once; the protocol's fees are
-- zeros until they are set.
pub record Stable : Type 0 where
  pub access : Access
  pub tokens : List Address
  pub decimals : List ℕ
  pub token_share : Address
  pub total_shares : ℕ
  pub reserves : List ℕ
  pub initial_a : ℕ
  pub initial_a_time : ℕ
  pub future_a : ℕ
  pub future_a_time : ℕ
  pub fee : ℕ
  pub future_fee : Option ℕ
  pub admin_actions_deadline : ℕ
  pub is_killed_swap : Bool
  pub is_killed_deposit : Bool
  pub is_killed_claim : Bool
  pub protocol_fee_fraction : ℕ
  pub protocol_fees : List ℕ
  pub reserves_sync_ledger : ℕ

abbrev pub fee_denominator : ℕ
fee_denominator = 10000

-- `vec.get(i).unwrap()`
unfoldable pub get {ℓ} : {A : Type ℓ} → List A → ℕ → Result A
get [] i = err (host trap)
get (x ∷ xs) zero = ok x
get (x ∷ xs) (suc i) = get xs i

-- `vec.set(i, value)`, which traps out of bounds.
unfoldable pub set {ℓ} : {A : Type ℓ} → List A → ℕ → A → Result (List A)
set [] i v = err (host trap)
set (x ∷ xs) zero v = ok (v ∷ xs)
set (x ∷ xs) (suc i) v = do rest ← set xs i v; ok (x ∷ rest)

-- `decimals.iter().max()`
unfoldable pub max_of : List ℕ → Option ℕ
max_of [] = none
max_of (d ∷ ds) = elim (max_of ds) [ none ↦ some d | some e ↦ some (if ltb d e then e else d) ]

unfoldable pub get_precision : List ℕ → Result ℕ
unfolding max_of
get_precision decimals = elim (max_of decimals) [
  | none ↦ err (host trap)
  | some max_decimals ↦ fit 128 (10 ^ max_decimals)
]

-- The loop of `get_precision_mul`.
unfoldable pub scale_all : ℕ → List ℕ → Result (List ℕ)
scale_all precision [] = ok []
scale_all precision (d ∷ ds) = do
  unit ← fit 128 (10 ^ d)
  scale ← div_checked precision unit
  rest ← scale_all precision ds
  ok (scale ∷ rest)

unfoldable pub get_precision_mul : List ℕ → Result (List ℕ)
unfolding get_precision scale_all
get_precision_mul decimals = do precision ← get_precision decimals; scale_all precision decimals

-- The loop of `xp`: each reserve times its scale; a missing reserve traps.
unfoldable pub multiply_all : List ℕ → List ℕ → Result (List ℕ)
multiply_all [] reserves = ok []
multiply_all (scale ∷ scales) [] = err (host trap)
multiply_all (scale ∷ scales) (reserve ∷ reserves) = do
  x ← fit 128 (scale * reserve)
  rest ← multiply_all scales reserves
  ok (x ∷ rest)

unfoldable pub xp : Stable → List ℕ → Result (List ℕ)
unfolding get_precision_mul multiply_all
xp p reserves = do scales ← get_precision_mul p.decimals; multiply_all scales reserves
