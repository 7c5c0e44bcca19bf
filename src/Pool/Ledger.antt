-- ===== src/Pool/Ledger.antt =====
-- What the pool relies on from the contracts that it calls, and what its books promise.
use soroban_amm.Prelude.{ℕ, ◌+◌, ◌≤◌, ◌≡◌, ◌≢◌, arith, sym}
use soroban_amm.Host.{Address, Env, ok}
use soroban_amm.Host.Integer.{ℤ, pos, pos_part, ◌≤ℤ◌, as_i128}
use soroban_amm.Pool.State.{Pool, Outside, sync_reserves}

-- SEP-41 tokens, in the documented behaviour of their calls: a transfer takes no negative amount and
-- moves it between two balances of its token, and nothing else moves a balance of a token other
-- than the one that is minted or burned.
pub record IsLedger {S : Type 0} (o : Outside S) : Type 0 where
  pub transfer_pays :
      (t f g : Address) (x : ℤ) (s s' : S)
      → o.transfer t f g x s ≡ ok s'
      → f ≢ g
      → (pos 0 ≤ℤ x)
        × (o.balance t f s' + pos_part x ≡ o.balance t f s)
        × (o.balance t g s' ≡ o.balance t g s + pos_part x)
  pub transfer_others :
      (t f g : Address) (x : ℤ) (s s' : S)
      → o.transfer t f g x s ≡ ok s'
      → (u h : Address) → u ≢ t
      → o.balance u h s' ≡ o.balance u h s
  pub mint_others :
      (t to : Address) (x : ℤ) (s s' : S)
      → o.mint t to x s ≡ ok s'
      → (u h : Address) → u ≢ t
      → o.balance u h s' ≡ o.balance u h s
  pub burn_others :
      (t from : Address) (x : ℤ) (s s' : S)
      → o.burn t from x s ≡ ok s'
      → (u h : Address) → u ≢ t
      → o.balance u h s' ≡ o.balance u h s
  pub gauges_keep :
      (user : Address) (b w : ℕ) (s s' : S)
      → o.gauges_checkpoint_user user b w s ≡ ok s'
      → (u h : Address) → o.balance u h s' ≡ o.balance u h s
  pub checkpoint_keeps :
      (user : Address) (total shares : ℕ) (s s' : S)
      → o.checkpoint_user user total shares s ≡ ok s'
      → (u h : Address) → o.balance u h s' ≡ o.balance u h s
  pub working_keeps :
      (user : Address) (total shares : ℕ) (s s' : S)
      → o.update_working_balance user total shares s ≡ ok s'
      → (u h : Address) → o.balance u h s' ≡ o.balance u h s
  pub plane_keeps :
      (p : Pool) (s s' : S)
      → o.update_plane p s ≡ ok s'
      → (u h : Address) → o.balance u h s' ≡ o.balance u h s

-- The pool at `self` holds its reserves and the protocol's fees in both tokens.
abbrev pub Solvent : {S : Type 0} → Outside S → Address → Pool → S → Type 0
Solvent o self p s =
    (p.reserve_a + p.protocol_fee_a ≤ o.balance p.token_a self s)
    × (p.reserve_b + p.protocol_fee_b ≤ o.balance p.token_b self s)

-- The two tokens and the share token are three contracts.
abbrev pub Distinct : Pool → Type 0
Distinct p = (p.token_a ≢ p.token_b) × (p.token_a ≢ p.token_share) × (p.token_b ≢ p.token_share)

as_i128-nonneg : (n : ℕ) → pos 0 ≤ℤ as_i128 n → pos_part (as_i128 n) ≡ n
unfolding as_i128
as_i128-nonneg n h = ground arith

module _ {S : Type 0} (o : Outside S) (laws : IsLedger o) (self user : Address)
    (ne : user ≢ self) where
  pub paid_in :
      (t : Address) (n : ℕ) (s s' : S)
      → o.transfer t user self (as_i128 n) s ≡ ok s'
      → (o.balance t self s' ≡ o.balance t self s + n)
        × ((u : Address) → u ≢ t → o.balance u self s' ≡ o.balance u self s)
  paid_in t n s s' h =
      let (le, _, e) = laws.transfer_pays t user self (as_i128 n) s s' h ne in
      (
        omega (arith, as_i128-nonneg n le),
        λ u other. laws.transfer_others t user self (as_i128 n) s s' h u self other,
      )

  pub paid_out :
      (t : Address) (n : ℕ) (s s' : S)
      → o.transfer t self user (as_i128 n) s ≡ ok s'
      → (o.balance t self s' + n ≡ o.balance t self s)
        × ((u : Address) → u ≢ t → o.balance u self s' ≡ o.balance u self s)
  paid_out t n s s' h =
      let (le, e, _) = laws.transfer_pays t self user (as_i128 n) s s' h (λ same. ne (sym same)) in
      (
        omega (arith, as_i128-nonneg n le),
        λ u other. laws.transfer_others t self user (as_i128 n) s s' h u self other,
      )

-- A sync changes no address of the pool, keeps what it owes, and keeps the books covered.
pub sync-Solvent :
    {S : Type 0} (o : Outside S) (e : Env) (p₀ p : Pool) (s : S)
    → sync_reserves o e p₀ s ≡ ok p
    → (p.token_a ≡ p₀.token_a)
      × (p.token_b ≡ p₀.token_b)
      × (p.token_share ≡ p₀.token_share)
      × (p.total_shares ≡ p₀.total_shares)
      × (p₀.reserve_a ≤ p.reserve_a)
      × (p₀.reserve_b ≤ p.reserve_b)
      × (Solvent o e.current_contract p₀ s → Solvent o e.current_contract p s)
unfolding sync_reserves
sync-Solvent o e p₀ p s h = (
  ground arith,
  ground arith,
  ground arith,
  ground arith,
  ground arith,
  ground arith,
  λ solvent. ground arith,
)
