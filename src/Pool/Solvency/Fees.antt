-- ===== src/Pool/Solvency/Fees.antt =====
-- Claiming the protocol's fees keeps the books covered.
use soroban_amm.Prelude.{ℕ, ◌+◌, ◌&&◌, ◌≡◌, ◌≢◌, inl, inr, arith, ltb, ◌==◌, Bool-cases, sym, refl}
use soroban_amm.Host.{Address, Env, ok}
use soroban_amm.Host.Integer.{as_i128}
use soroban_amm.Pool.State.{Pool, Outside}
use soroban_amm.Pool.Ledger.{IsLedger, Solvent, paid_out}
use soroban_amm.Pool.Admin.{pay_fee, pay_fees, claim_protocol_fees}

module _ {S : Type 0} (o : Outside S) where
  pay_fees-eq-ok :
      (e : Env) (p p' : Pool) (s s' : S) (destination : Address) (fees : ℕ × ℕ)
      → pay_fees o e (p, s) destination ≡ ok (fees, (p', s'))
      → (s₁ : S) × (pay_fee o e p.token_a destination p.protocol_fee_a s ≡ ok s₁)
        × (pay_fee o e p.token_b destination p.protocol_fee_b s₁ ≡ ok s')
        × (fees.0 ≡ p.protocol_fee_a)
        × (fees.1 ≡ p.protocol_fee_b)
        × (p'.protocol_fee_a ≡ 0)
        × (p'.protocol_fee_b ≡ 0)
        × (p'.reserve_a ≡ p.reserve_a)
        × (p'.reserve_b ≡ p.reserve_b)
        × (p'.token_a ≡ p.token_a)
        × (p'.token_b ≡ p.token_b)
  unfolding pay_fees pay_fee
  pay_fees-eq-ok e p p' s s' destination fees h =
      elim (Bool-cases (p.protocol_fee_a == 0 && p.protocol_fee_b == 0)) [
        | inl none_due ↦
            let za : p.protocol_fee_a ≡ 0 = ground arith in
            let zb : p.protocol_fee_b ≡ 0 = ground arith in
            let same : s ≡ s' = ground arith in
            (
              s,
              rw za refl,
              rw (zb, same) refl,
              ground arith,
              ground arith,
              ground arith,
              ground arith,
              ground arith,
              ground arith,
              ground arith,
              ground arith,
            )
        | inr due ↦ ground arith
      ]

module _ {S : Type 0} (o : Outside S) (laws : IsLedger o) where
  authorized :
      (e : Env) (p : Pool) (s : S) (admin destination : Address) {r : (ℕ × ℕ) × (Pool × S)}
      → claim_protocol_fees o e (p, s) admin destination ≡ ok r
      → pay_fees o e (p, s) destination ≡ ok r
  unfolding claim_protocol_fees
  authorized e p s admin destination h = ground arith

  paid_fee :
      (e : Env) (t destination : Address) (fee : ℕ) (s s' : S)
      → destination ≢ e.current_contract
      → pay_fee o e t destination fee s ≡ ok s'
      → (o.balance t e.current_contract s' + fee ≡ o.balance t e.current_contract s)
        × ((u : Address)
            → u ≢ t
            → o.balance u e.current_contract s' ≡ o.balance u e.current_contract s)
  unfolding pay_fee
  paid_fee e t destination fee s s' ne h = elim (Bool-cases (ltb 0 fee)) [
    | inl due ↦
        let moved : o.transfer t e.current_contract destination (as_i128 fee) s ≡ ok s' =
          rw due at h in
        paid_out o laws e.current_contract destination ne t fee s s' moved
    | inr none_due ↦
        let same : s ≡ s' = ground arith in
        let zero_fee : fee ≡ 0 = ground arith in
        (rw (sym same, zero_fee) (omega arith), λ u other. rw (sym same) refl)
  ]

  -- In a pool of two different tokens that holds its reserves and the protocol's fees, claiming
  -- the fees to anybody but the pool itself reports the fees that were owed, pays them out of the
  -- pool's balances, owes nothing after it, and leaves the reserves as they were and covered, for
  -- tokens that move balances as documented.
  pub claim_protocol_fees-Solvent :
      (e : Env) (p p' : Pool) (s s' : S) (admin destination : Address) (fees : ℕ × ℕ)
      → destination ≢ e.current_contract
      → p.token_a ≢ p.token_b
      → Solvent o e.current_contract p s
      → claim_protocol_fees o e (p, s) admin destination ≡ ok (fees, (p', s'))
      → (fees.0 ≡ p.protocol_fee_a)
        × (fees.1 ≡ p.protocol_fee_b)
        × (o.balance p.token_a e.current_contract s' + fees.0
            ≡ o.balance p.token_a e.current_contract s)
        × (o.balance p.token_b e.current_contract s' + fees.1
            ≡ o.balance p.token_b e.current_contract s)
        × (p'.protocol_fee_a ≡ 0)
        × (p'.protocol_fee_b ≡ 0)
        × (p'.reserve_a ≡ p.reserve_a)
        × (p'.reserve_b ≡ p.reserve_b)
        × Solvent o e.current_contract p' s'
  claim_protocol_fees-Solvent e p p' s s' admin destination fees ne ab solvent h =
      let self = e.current_contract in
      let (s₁, pay_a, pay_b, fa, fb, za, zb, ra, rb, ta, tb) =
        pay_fees-eq-ok o e p p' s s' destination fees (authorized e p s admin destination h) in
      let (less_a, other₁) = paid_fee e p.token_a destination p.protocol_fee_a s s₁ ne pay_a in
      let (less_b, other₂) = paid_fee e p.token_b destination p.protocol_fee_b s₁ s' ne pay_b in
      let kept_a = other₂ p.token_a ab in
      let kept_b = other₁ p.token_b (λ q. ab (sym q)) in
      (
        fa,
        fb,
        omega arith,
        omega arith,
        za,
        zb,
        ra,
        rb,
        (rw (ta, ra, za) (omega arith), rw (tb, rb, zb) (omega arith)),
      )
