-- ===== src/Pool/Solvency/Trades.antt =====
-- Swaps keep the books covered.
use soroban_amm.Prelude.{
  ℕ, ◌+◌, ◌-◌, ◌*◌, ◌/◌, ◌≤◌, ◌≡◌, ◌≢◌, inl, inr, arith, ltb, ◌==◌, if◌then◌else◌, Bool-cases,
}
use soroban_amm.Host.{Address, Env, Math, ok}
use soroban_amm.Host.Integer.{as_i128}
use soroban_amm.Pool.Formulas.{fee_multiplier}
use soroban_amm.Pool.State.{Pool, Outside}
use soroban_amm.Pool.Swap.{check_indices, token_at, pay_out, swap, swap_strict_receive}
use soroban_amm.Pool.Product.{
  Settled, swap-eq-ok, strict-eq-ok, settle-Settled, check_indices-eq-ok,
}
use soroban_amm.Pool.Ledger.{IsLedger, Solvent, paid_in, paid_out, sync-Solvent}

module _ ⦃m : Math⦄ {S : Type 0} (o : Outside S) where
  pay_out-eq-ok :
      (e : Env) (p p' : Pool) (s s' : S) (user : Address) (j out fee : ℕ) (new : ℕ × ℕ)
      → pay_out o e p user j new out fee s ≡ ok (p', s')
      → (s₁ : S) × (o.transfer (token_at p j) e.current_contract user (as_i128 out) s ≡ ok s₁)
        × (o.update_plane p' s₁ ≡ ok s')
        × (p'.token_a ≡ p.token_a)
        × (p'.token_b ≡ p.token_b)
  unfolding pay_out
  pay_out-eq-ok e p p' s s' user j out fee new h = elim (Bool-cases (j == 0)) [
    | inl first ↦ rw first (ground arith)
    | inr second ↦ rw second (ground arith)
  ]

module _ ⦃m : Math⦄ {S : Type 0} (o : Outside S) (laws : IsLedger o) where
  -- The books cover what they say and the input `n` of token `i`.
  abbrev Funded : Address → Pool → ℕ → ℕ → S → Type 0
  Funded self p i n s =
      (p.reserve_a + p.protocol_fee_a + (if i == 0 then n else 0) ≤ o.balance p.token_a self s)
      × (p.reserve_b + p.protocol_fee_b + (if i == 0 then 0 else n) ≤ o.balance p.token_b self s)

  pay_out-Solvent :
      (e : Env) (p p' : Pool) (s s' : S) (user : Address) (i j n out fee : ℕ) (new : ℕ × ℕ)
      → user ≢ e.current_contract
      → p.token_a ≢ p.token_b
      → check_indices i j ≡ ok tt
      → Settled p j n out fee p'
      → pay_out o e p user j new out fee s ≡ ok (p', s')
      → Funded e.current_contract p i n s
      → Solvent o e.current_contract p' s'
  pay_out-Solvent e p p' s s' user i j n out fee new ne distinct idx done paid funded =
      let self = e.current_contract in
      let (s₁, moved, planed, ea, eb) = pay_out-eq-ok o e p p' s s' user j out fee new paid in
      let (less, others) = paid_out o laws self user ne (token_at p j) out s s₁ moved in
      let keeps_a = laws.plane_keeps p' s₁ s' planed p.token_a self in
      let keeps_b = laws.plane_keeps p' s₁ s' planed p.token_b self in
      rw (ea, eb)
        (elim (check_indices-eq-ok i j idx) [
          | inl (ei, ej) ↦ ground (arith, others p.token_a)
          | inr (ei, ej) ↦ ground (arith, others p.token_b)
        ])

  funded :
      (e : Env) (p : Pool) (s s₁ : S) (user : Address) (i j n : ℕ)
      → user ≢ e.current_contract
      → p.token_a ≢ p.token_b
      → check_indices i j ≡ ok tt
      → Solvent o e.current_contract p s
      → o.transfer (token_at p i) user e.current_contract (as_i128 n) s ≡ ok s₁
      → Funded e.current_contract p i n s₁
  funded e p s s₁ user i j n ne distinct idx solvent moved =
      let (more, others) = paid_in o laws e.current_contract user ne (token_at p i) n s s₁ moved in
      elim (check_indices-eq-ok i j idx) [
        | inl (ei, ej) ↦ ground (arith, others p.token_b)
        | inr (ei, ej) ↦ ground (arith, others p.token_a)
      ]

  refunded-Funded :
      (e : Env) (p : Pool) (s s₁ : S) (user : Address) (i j most n : ℕ)
      → user ≢ e.current_contract
      → p.token_a ≢ p.token_b
      → check_indices i j ≡ ok tt
      → n ≤ most
      → Funded e.current_contract p i most s
      → (if ltb 0 (most - n)
          then o.transfer (token_at p i) e.current_contract user (as_i128 (most - n)) s
          else ok s)
        ≡ ok s₁
      → Funded e.current_contract p i n s₁
  refunded-Funded e p s s₁ user i j most n ne distinct idx le f h =
      elim (Bool-cases (ltb 0 (most - n))) [
        | inl some_left ↦
            let moved : o.transfer (token_at p i) e.current_contract user (as_i128 (most - n)) s
                ≡ ok s₁ =
              rw some_left at h in
            let (less, others) =
              paid_out o laws e.current_contract user ne (token_at p i) (most - n) s s₁ moved in
            elim (check_indices-eq-ok i j idx) [
              | inl (ei, ej) ↦ ground (arith, others p.token_b)
              | inr (ei, ej) ↦ ground (arith, others p.token_a)
            ]
        | inr none_left ↦ ground arith
      ]

  -- Where a pool of two different tokens holds its reserves and the protocol's fees in both, it
  -- still does after a swap by anybody but the pool itself, for tokens that move balances as
  -- documented.
  pub swap-Solvent :
      (e : Env) (p₀ p' : Pool) (s s' : S) (user : Address) (i j n least out : ℕ)
      → user ≢ e.current_contract
      → p₀.token_a ≢ p₀.token_b
      → Solvent o e.current_contract p₀ s
      → swap o e (p₀, s) user i j n least ≡ ok (out, (p', s'))
      → Solvent o e.current_contract p' s'
  swap-Solvent e p₀ p' s s' user i j n least out ne distinct solvent h =
      let (p, sync, quote, _, s₁, moved, new, taken, paid, idx, _, _, _, _) =
        swap-eq-ok o e p₀ p' s s' user i j n least out h in
      let protocol_fee = quote.1 * p.protocol_fee_fraction / fee_multiplier in
      let (ea, eb, _, _, _, _, keeps) = sync-Solvent o e p₀ p s sync in
      let distinct' : p.token_a ≢ p.token_b = rw (ea, eb) distinct in
      let done = settle-Settled o e p p' s₁ s' user i j n quote.0 protocol_fee new idx taken paid in
      let f = funded e p s s₁ user i j n ne distinct' idx (keeps solvent) moved in
      pay_out-Solvent e p p' s₁ s' user i j n quote.0 protocol_fee new ne distinct' idx done paid f

  -- Where a pool of two different tokens holds its reserves and the protocol's fees in both, it
  -- still does after a swap to an exact output by anybody but the pool itself, which takes the
  -- given maximum and returns the rest, for tokens that move balances as documented.
  pub swap_strict_receive-Solvent :
      (e : Env) (p₀ p' : Pool) (s s' : S) (user : Address) (i j out most n : ℕ)
      → user ≢ e.current_contract
      → p₀.token_a ≢ p₀.token_b
      → Solvent o e.current_contract p₀ s
      → swap_strict_receive o e (p₀, s) user i j out most ≡ ok (n, (p', s'))
      → Solvent o e.current_contract p' s'
  swap_strict_receive-Solvent e p₀ p' s s' user i j out most n ne distinct solvent h =
      let (p, sync, quote, _, s₁, moved, s₂, refunded, new, taken, paid, idx, _, _, enough, _) =
        strict-eq-ok o e p₀ p' s s' user i j out most n h in
      let protocol_fee = quote.1 * p.protocol_fee_fraction / fee_multiplier in
      let (ea, eb, _, _, _, _, keeps) = sync-Solvent o e p₀ p s sync in
      let distinct' : p.token_a ≢ p.token_b = rw (ea, eb) distinct in
      let done =
        settle-Settled o e p p' s₂ s' user i j quote.0 out protocol_fee new idx taken paid in
      let f = funded e p s s₁ user i j most ne distinct' idx (keeps solvent) moved in
      let g = refunded-Funded e p s₁ s₂ user i j most quote.0 ne distinct' idx enough f refunded in
      pay_out-Solvent e p p' s₂ s' user i j quote.0 out protocol_fee new ne distinct' idx done paid
        g
