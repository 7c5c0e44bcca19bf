-- ===== src/Pool/Solvency/Deposits.antt =====
-- Deposits and withdrawals keep the books covered.
use soroban_amm.Prelude.{
  ℕ, ◌+◌, ◌-◌, ◌≤◌, ◌≡◌, ◌≢◌, List, inl, inr, arith, ltb, Bool-cases, sym, refl,
}
use soroban_amm.Host.{Address, Env, Math, ok}
use soroban_amm.Host.Integer.{as_i128}
use soroban_amm.Pool.Formulas.{get_deposit_amounts}
use soroban_amm.Pool.State.{Pool, Outside}
use soroban_amm.Pool.Liquidity.{
  checkpoint_before, checkpoint_after, conclude, give_back, deposit, withdraw,
}
use soroban_amm.Pool.Ledger.{IsLedger, Solvent, Distinct, paid_in, paid_out, sync-Solvent}
use soroban_amm.Pool.Inversion.{
  conclude-eq-ok, credit-eq-ok, deposit-eq-ok, redeem-eq-ok, withdraw-eq-ok,
}

module _ ⦃m : Math⦄ where
  taken-le :
      (da db ra rb : ℕ) {taken : ℕ × ℕ}
      → get_deposit_amounts da 0 db 0 ra rb ≡ ok taken
      → (taken.0 ≤ da) × (taken.1 ≤ db)
  unfolding get_deposit_amounts
  taken-le da db ra rb h = (ground arith, ground arith)

module _ ⦃m : Math⦄ {S : Type 0} (o : Outside S) (laws : IsLedger o) where
  before_keeps :
      (user : Address) (total shares : ℕ) (s s' : S)
      → checkpoint_before o user total shares s ≡ ok s'
      → (u h : Address) → o.balance u h s' ≡ o.balance u h s
  unfolding checkpoint_before
  before_keeps user total shares s s' h u g =
      let (b, _, w, _, s₁, first, second) : (b : ℕ) × (o.get_working_balance user shares s ≡ ok b)
          × (w : ℕ) × (o.get_working_supply total s ≡ ok w)
          × (s₁ : S) × (o.gauges_checkpoint_user user b w s ≡ ok s₁)
          × (o.checkpoint_user user total shares s₁ ≡ ok s') =
        ground arith in
      omega (
        arith,
        laws.checkpoint_keeps user total shares s₁ s' second u g,
        laws.gauges_keep user b w s s₁ first u g,
      )

  after_keeps :
      (user : Address) (du dt total shares : ℕ) (s s' : S)
      → checkpoint_after o user du dt total shares s ≡ ok s'
      → (u h : Address) → o.balance u h s' ≡ o.balance u h s
  unfolding checkpoint_after
  after_keeps user du dt total shares s s' h u g =
      let (b, _, w, _, s₁, first, second) : (b : ℕ) × (o.get_working_balance user du s ≡ ok b)
          × (w : ℕ) × (o.get_working_supply dt s ≡ ok w)
          × (s₁ : S) × (o.gauges_checkpoint_user user b w s ≡ ok s₁)
          × (o.update_working_balance user total shares s₁ ≡ ok s') =
        ground arith in
      omega (
        arith,
        laws.working_keeps user total shares s₁ s' second u g,
        laws.gauges_keep user b w s s₁ first u g,
      )

  concluded :
      (p p' : Pool) (s s' : S) (user : Address) (du dt total held : ℕ)
      → conclude o p user du dt total held s ≡ ok (p', s')
      → (p ≡ p') × ((u h : Address) → o.balance u h s' ≡ o.balance u h s)
  concluded p p' s s' user du dt total held h =
      let (s₁, checked, planed, e) = conclude-eq-ok o p p' s s' user du dt total held h in
      (
        e,
        λ u g. omega (
          arith,
          laws.plane_keeps p s₁ s' planed u g,
          after_keeps user du dt total held s s₁ checked u g,
        ),
      )

  given_back :
      (e : Env) (t user : Address) (desired amount : ℕ) (s s' : S)
      → user ≢ e.current_contract
      → amount ≤ desired
      → give_back o e t user desired amount s ≡ ok s'
      → (o.balance t e.current_contract s' + (desired - amount) ≡ o.balance t e.current_contract s)
        × ((u : Address)
            → u ≢ t
            → o.balance u e.current_contract s' ≡ o.balance u e.current_contract s)
  unfolding give_back
  given_back e t user desired amount s s' ne le h = elim (Bool-cases (ltb amount desired)) [
    | inl more ↦
        let moved : o.transfer t e.current_contract user (as_i128 (desired - amount)) s ≡ ok s' =
          rw more at h in
        paid_out o laws e.current_contract user ne t (desired - amount) s s' moved
    | inr exact ↦
        let same : s ≡ s' = ground arith in
        let none_left : desired - amount ≡ 0 = ground arith in
        (rw (sym same, none_left) (omega arith), λ u other. rw (sym same) refl)
  ]

  -- Where a pool with three different token contracts (the share token is the third) holds its
  -- reserves and the protocol's fees, it still does after a deposit by anybody but the pool
  -- itself, for tokens that move balances as documented.
  pub deposit-Solvent :
      (e : Env) (p₀ p' : Pool) (s s' : S) (user : Address) (l : List ℕ) (least shares : ℕ)
      (amounts : ℕ × ℕ)
      → user ≢ e.current_contract
      → Distinct p₀
      → Solvent o e.current_contract p₀ s
      → deposit o e (p₀, s) user l least ≡ ok (amounts, shares, (p', s'))
      → Solvent o e.current_contract p' s'
  deposit-Solvent e p₀ p' s s' user l least shares amounts ne distinct solvent h =
      let self = e.current_contract in
      let (
        desired, _, p, sync, s₁, checked, s₂, in_a, s₃, in_b, taken, quoted, s₄, back_a, s₅, back_b,
        credited, _, _,
      ) =
        deposit-eq-ok o e p₀ p' s s' user l least shares amounts h in
      let (total, _, minted, _, s₆, mints, held, _, done, _, _, _) =
        credit-eq-ok o p s₅ user _ least _ _ shares (p', s') credited in
      let (ep, kept) = concluded _ p' s₆ s' user 0 0 total held done in
      let (ea, eb, es, _, _, _, keeps) = sync-Solvent o e p₀ p s sync in
      let (ab, a_s, b_s) : Distinct p = rw (ea, eb, es) distinct in
      let (la, lb) = taken-le desired.0 desired.1 p.reserve_a p.reserve_b quoted in
      let first = before_keeps user _ _ s s₁ checked in
      let (more_a, other₂) = paid_in o laws self user ne p.token_a desired.0 s₁ s₂ in_a in
      let (more_b, other₃) = paid_in o laws self user ne p.token_b desired.1 s₂ s₃ in_b in
      let (less_a, other₄) = given_back e p.token_a user desired.0 taken.0 s₃ s₄ ne la back_a in
      let (less_b, other₅) = given_back e p.token_b user desired.1 taken.1 s₄ s₅ ne lb back_b in
      let minting = laws.mint_others p.token_share user (as_i128 minted) s₅ s₆ mints in
      let have = keeps solvent in
      rw (sym ep) (
        omega (
          arith,
          kept p.token_a self,
          minting p.token_a self a_s,
          other₅ p.token_a ab,
          other₃ p.token_a ab,
          first p.token_a self,
        ),
        omega (
          arith,
          kept p.token_b self,
          minting p.token_b self b_s,
          other₄ p.token_b (λ q. ab (sym q)),
          other₂ p.token_b (λ q. ab (sym q)),
          first p.token_b self,
        ),
      )

  -- Where a pool with three different token contracts (the share token is the third) holds its
  -- reserves and the protocol's fees, it still does after a withdrawal by anybody but the pool
  -- itself, for tokens that move balances as documented.
  pub withdraw-Solvent :
      (e : Env) (p₀ p' : Pool) (s s' : S) (user : Address) (n : ℕ) (l : List ℕ) (out : ℕ × ℕ)
      → user ≢ e.current_contract
      → Distinct p₀
      → Solvent o e.current_contract p₀ s
      → withdraw o e (p₀, s) user n l ≡ ok (out, (p', s'))
      → Solvent o e.current_contract p' s'
  withdraw-Solvent e p₀ p' s s' user n l out ne distinct solvent h =
      let self = e.current_contract in
      let (
        _, _, p, sync, s₁, checked, s₂, burns, paid, _, s₃, out_a, s₄, out_b, redeemed, _, _, _, _,
        _,
      ) =
        withdraw-eq-ok o e p₀ s user n l out (p', s') h in
      let (done, la, lb) = redeem-eq-ok o p _ s₄ user _ n paid.0 paid.1 (p', s') redeemed in
      let (ep, kept) = concluded _ p' s₄ s' user _ _ _ _ done in
      let (ea, eb, es, _, _, _, keeps) = sync-Solvent o e p₀ p s sync in
      let (ab, a_s, b_s) : Distinct p = rw (ea, eb, es) distinct in
      let first = before_keeps user _ _ s s₁ checked in
      let burning = laws.burn_others p.token_share user (as_i128 n) s₁ s₂ burns in
      let (less_a, other₃) = paid_out o laws self user ne p.token_a paid.0 s₂ s₃ out_a in
      let (less_b, other₄) = paid_out o laws self user ne p.token_b paid.1 s₃ s₄ out_b in
      let have = keeps solvent in
      rw (sym ep) (
        omega (
          arith,
          kept p.token_a self,
          burning p.token_a self a_s,
          other₄ p.token_a ab,
          first p.token_a self,
        ),
        omega (
          arith,
          kept p.token_b self,
          burning p.token_b self b_s,
          other₃ p.token_b (λ q. ab (sym q)),
          first p.token_b self,
        ),
      )
