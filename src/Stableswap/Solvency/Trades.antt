-- ===== src/Stableswap/Solvency/Trades.antt =====
-- The books of the stableswap pool over a swap.
use soroban_amm.Prelude.{
  ℕ, ◌+◌, ◌≡◌, ◌≢◌, arith, sym, ◌⊎◌, true, false, ◌∙◌, List, ◌==◌, if◌then◌else◌, Bool-cases, inl,
  inr,
}
use soroban_amm.Host.{Address, Env, Math, Result, ok, fit, sub_checked}
use soroban_amm.Host.Integer.{as_i128}
use soroban_amm.Pool.State.{Outside}
use soroban_amm.Pool.Ledger.{IsLedger, paid_in, paid_out}
use soroban_amm.Stableswap.State.{Stable, get, set}
use soroban_amm.Stableswap.Lookup.{get-set, get-set_other}
use soroban_amm.Stableswap.Swap.{book_trade, settle, return_rest, swap, swap_strict_receive}
use soroban_amm.Stableswap.Swap.Curve.{swap-eq-ok, refund-eq-ok, strict-eq-ok}
use soroban_amm.Stableswap.Solve.Root.{get_y-IsRoot}
use soroban_amm.Stableswap.Solvency.{Funded, Solvent, Distinct, sync-Solvent}

-- The calls of the plane move no token.
abbrev pub KeepsBalances : {S : Type 0} → Outside S → (Stable → S → Result S) → Type 0
KeepsBalances {S = S} o update_plane =
    (p : Stable) (s s' : S)
    → update_plane p s ≡ ok s'
    → (u h : Address) → o.balance u h s' ≡ o.balance u h s

book_trade-eq-ok :
    (p p' : Stable) (i j n out fee : ℕ)
    → book_trade p i j n out fee ≡ ok p'
    → (r : ℕ) × (get p.reserves i ≡ ok r)
      × (grown : ℕ) × (fit 128 (r + n) ≡ ok grown)
      × (new_in : ℕ) × (sub_checked grown fee ≡ ok new_in)
      × (sold : List ℕ) × (set p.reserves i new_in ≡ ok sold)
      × (q : ℕ) × (get p.reserves j ≡ ok q)
      × (new_out : ℕ) × (sub_checked q out ≡ ok new_out)
      × (bought : List ℕ) × (set sold j new_out ≡ ok bought)
      × (f : ℕ) × (get p.protocol_fees i ≡ ok f)
      × (new_fee : ℕ) × (fit 128 (f + fee) ≡ ok new_fee)
      × (fees : List ℕ) × (set p.protocol_fees i new_fee ≡ ok fees)
      × (p' ≡ record p { reserves = bought; protocol_fees = fees })
unfolding book_trade
book_trade-eq-ok p p' i j n out fee h = ground arith

module _ ⦃m : Math⦄ {S : Type 0} (o : Outside S) (update_plane : Stable → S → Result S) where
  settle-eq-ok :
      (e : Env) (p : Stable) (s : S) (user : Address) (i j n out fee : ℕ) (done : Stable × S)
      → settle o update_plane e p user i j n out fee s ≡ ok done
      → (booked : Stable) × (book_trade p i j n out fee ≡ ok booked)
        × (token_out : Address) × (get p.tokens j ≡ ok token_out)
        × (s₁ : S) × (o.transfer token_out e.current_contract user (as_i128 out) s ≡ ok s₁)
        × (s₂ : S) × (update_plane booked s₁ ≡ ok s₂)
        × (booked ≡ done.0)
        × (s₂ ≡ done.1)
  unfolding settle
  settle-eq-ok e p s user i j n out fee done h = ground arith

equal_of : (a b : ℕ) → a == b ≡ true → a ≡ b
equal_of a b h = ground arith

different_of : (a b : ℕ) → a == b ≡ false → a ≢ b
different_of a b h = ground arith

balance_in :
    (k i j r r' f f' new_in new_fee n out fee : ℕ)
    → k ≡ i
    → k ≢ j
    → ok r' ≡ ok new_in
    → ok f' ≡ ok new_fee
    → new_in + fee ≡ r + n
    → new_fee ≡ f + fee
    → r' + f' + (if k == j then out else 0) ≡ r + f + (if k == i then n else 0)
balance_in k i j r r' f f' new_in new_fee n out fee ki off_j er ef taken taxed = ground arith

balance_out :
    (k i j q r' f new_out n out : ℕ)
    → k ≢ i
    → k ≡ j
    → ok r' ≡ ok new_out
    → new_out + out ≡ q
    → r' + f + (if k == j then out else 0) ≡ q + f + (if k == i then n else 0)
balance_out k i j q r' f new_out n out off_i kj er paid = ground arith

balance_off :
    (k i j r f n out : ℕ)
    → k ≢ i
    → k ≢ j
    → r + f + (if k == j then out else 0) ≡ r + f + (if k == i then n else 0)
balance_off k i j r f n out off_i off_j = ground arith

-- A trade moves the input into the books of `i`, and the output out of those of `j`.
book_trade-balance :
    (p p' : Stable) (i j n out fee k t r' f' : ℕ)
    → book_trade p i j n out fee ≡ ok p'
    → i ≢ j
    → get p'.tokens k ≡ ok t
    → get p'.reserves k ≡ ok r'
    → get p'.protocol_fees k ≡ ok f'
    → (get p.tokens k ≡ ok t)
      × (r : ℕ) × (get p.reserves k ≡ ok r)
      × (f : ℕ) × (get p.protocol_fees k ≡ ok f)
      × (r' + f' + (if k == j then out else 0) ≡ r + f + (if k == i then n else 0))
book_trade-balance p p' i j n out fee k t r' f' h ne ht hr hf =
    let (
      r, old_in, grown, e₁, new_in, e₂, sold, set_in, q, old_out, new_out, e₃, bought, set_out, f,
      old_fee, new_fee, e₄, fees, set_fee, same,
    ) =
      book_trade-eq-ok p p' i j n out fee h in
    let ht' : get p.tokens k ≡ ok t = rw same at ht in
    let hr' : get bought k ≡ ok r' = rw same at hr in
    let hf' : get fees k ≡ ok f' = rw same at hf in
    let taken : new_in + fee ≡ r + n = ground arith in
    let paid : new_out + out ≡ q = ground arith in
    let taxed : new_fee ≡ f + fee = ground arith in
    let old_fees : k ≢ i → get p.protocol_fees k ≡ ok f' =
      λ off. sym (get-set_other p.protocol_fees fees i k new_fee set_fee off) ∙ hf' in
    elim (Bool-cases (k == i)) [
      | inl at_i ↦
          let ki : k ≡ i = equal_of k i at_i in
          let off_j : k ≢ j = λ kj. ne (sym ki ∙ kj) in
          let read : get bought i ≡ ok new_in =
            get-set_other sold bought j i new_out set_out ne
            ∙ get-set p.reserves sold i new_in set_in in
          let reserve : ok r' ≡ ok new_in = (rw ki at (sym hr')) ∙ read in
          let booked : ok f' ≡ ok new_fee =
            (rw ki at (sym hf')) ∙ get-set p.protocol_fees fees i new_fee set_fee in
          (
            ht',
            r,
            rw ki old_in,
            f,
            rw ki old_fee,
            balance_in k i j r r' f f' new_in new_fee n out fee ki off_j reserve booked taken taxed,
          )
      | inr off ↦
          let off_i : k ≢ i = different_of k i off in
          elim (Bool-cases (k == j)) [
            | inl at_j ↦
                let kj : k ≡ j = equal_of k j at_j in
                let read : get bought j ≡ ok new_out = get-set sold bought j new_out set_out in
                let reserve : ok r' ≡ ok new_out = (rw kj at (sym hr')) ∙ read in
                (
                  ht',
                  q,
                  rw kj old_out,
                  f',
                  old_fees off_i,
                  balance_out k i j q r' f' new_out n out off_i kj reserve paid,
                )
            | inr else_where ↦
                let off_j : k ≢ j = different_of k j else_where in
                let kept : get p.reserves k ≡ ok r' =
                  sym (get-set_other p.reserves sold i k new_in set_in off_i)
                  ∙ sym (get-set_other sold bought j k new_out set_out off_j)
                  ∙ hr' in
                (ht', r', kept, f', old_fees off_i, balance_off k i j r' f' n out off_i off_j)
          ]
    ]

token_cases :
    (p : Stable) (k i t coin : ℕ)
    → Distinct p
    → get p.tokens k ≡ ok t
    → get p.tokens i ≡ ok coin
    → ((k ≡ i) × (t ≡ coin)) ⊎ ((k ≢ i) × (t ≢ coin))
token_cases p k i t coin distinct ht hi = elim (Bool-cases (k == i)) [
  | inl same ↦
      let ki : k ≡ i = equal_of k i same in
      let both : ok t ≡ ok coin = sym ht ∙ (rw ki hi) in inl (ki, ground arith)
  | inr off ↦ inr (different_of k i off, λ tc. different_of k i off (distinct k i t ht (rw tc hi)))
]

return_rest-cases :
    {S : Type 0} (o : Outside S) (e : Env) (coin user rest : ℕ) (s s₁ : S)
    → return_rest o e coin user rest s ≡ ok s₁
    → ((rest ≡ 0) × (s ≡ s₁)) ⊎ (o.transfer coin e.current_contract user (as_i128 rest) s ≡ ok s₁)
unfolding return_rest
return_rest-cases o e coin user rest s s₁ h = ground arith

module _ ⦃m : Math⦄ {S : Type 0} (o : Outside S) (laws : IsLedger o)
    (update_plane : Stable → S → Result S) (keeps : KeepsBalances o update_plane) where
  settle-Solvent :
      (e : Env) (p : Stable) (s : S) (user : Address) (i j n out fee : ℕ) (done : Stable × S)
      → user ≢ e.current_contract
      → Distinct p
      → i ≢ j
      → Funded o e.current_contract p i n s
      → settle o update_plane e p user i j n out fee s ≡ ok done
      → Solvent o e.current_contract done.0 done.1
  settle-Solvent e p s user i j n out fee done ne distinct apart funded h k t r' f' ht hr hf =
      let (booked, trade, coin, listed, s₁, moved, s₂, planed, same, same_s) =
        settle-eq-ok o update_plane e p s user i j n out fee done h in
      let (ht', r, hr', f, hf', balance) =
        book_trade-balance p booked i j n out fee k t r' f' trade apart (rw same ht) (rw same hr)
          (rw same hf) in
      let covered = funded k t r f ht' hr' hf' in
      let plane : o.balance t e.current_contract done.1 ≡ o.balance t e.current_contract s₁ =
        rw same_s at (keeps booked s₁ s₂ planed t e.current_contract) in
      let (less, others) = paid_out o laws e.current_contract user ne coin out s s₁ moved in
      elim (token_cases p k j t coin distinct ht' listed) [
        | inl (at_j, same_coin) ↦ let less' = (rw (sym same_coin) at less) in ground arith
        | inr (off_j, other_coin) ↦ let kept = others t other_coin in ground arith
      ]

  input-Funded :
      (e : Env) (p : Stable) (s s₁ : S) (user coin : Address) (i n : ℕ)
      → user ≢ e.current_contract
      → Distinct p
      → Solvent o e.current_contract p s
      → get p.tokens i ≡ ok coin
      → o.transfer coin user e.current_contract (as_i128 n) s ≡ ok s₁
      → Funded o e.current_contract p i n s₁
  input-Funded e p s s₁ user coin i n ne distinct solvent listed moved k t r f ht hr hf =
      let (more, others) = paid_in o laws e.current_contract user ne coin n s s₁ moved in
      let covered = solvent k t r f ht hr hf in
      elim (token_cases p k i t coin distinct ht listed) [
        | inl (at_i, same_coin) ↦ let more' = (rw (sym same_coin) at more) in ground arith
        | inr (off_i, other_coin) ↦ let kept = others t other_coin in ground arith
      ]

  refund-Funded :
      (e : Env) (p : Stable) (s s₁ : S) (user coin : Address) (i most n rest : ℕ)
      → user ≢ e.current_contract
      → Distinct p
      → get p.tokens i ≡ ok coin
      → n + rest ≡ most
      → Funded o e.current_contract p i most s
      → return_rest o e coin user rest s ≡ ok s₁
      → Funded o e.current_contract p i n s₁
  refund-Funded e p s s₁ user coin i most n rest ne distinct listed sum funded moved k t r f ht hr
        hf =
      let covered = funded k t r f ht hr hf in
      elim (return_rest-cases o e coin user rest s s₁ moved) [
        | inl (none_left, same) ↦ ground (arith, none_left)
        | inr paid ↦
            let (less, others) = paid_out o laws e.current_contract user ne coin rest s s₁ paid in
            elim (token_cases p k i t coin distinct ht listed) [
              | inl (at_i, same_coin) ↦ let less' = (rw (sym same_coin) at less) in ground arith
              | inr (off_i, other_coin) ↦ let kept = others t other_coin in ground arith
            ]
      ]

  -- Where a pool of different tokens holds its reserve and the protocol's fee in each, it still does
  -- after a swap by anybody but the pool itself, for tokens that move balances as documented and a
  -- plane that moves none.
  pub swap-covered :
      (e : Env) (p₀ : Stable) (s : S) (user : Address) (i j n least out : ℕ) (done : Stable × S)
      → user ≢ e.current_contract
      → Distinct p₀
      → Solvent o e.current_contract p₀ s
      → swap o update_plane e (p₀, s) user i j n least ≡ ok (out, done)
      → Solvent o e.current_contract done.0 done.1
  swap-covered e p₀ s user i j n least out done ne distinct solvent h =
      let (
        p, sync, _, _, xs, _, coin, listed, s₁, moved, _, _, fee, _, x, _, y, solved, _, end, _,
      ) =
        swap-eq-ok o update_plane e p₀ s user i j n least out done h in
      let (tokens, covers) = sync-Solvent o e p₀ p s sync in
      let distinct' : Distinct p = rw tokens distinct in
      let apart = (get_y-IsRoot e p i j x y xs solved).0 in
      let funded = input-Funded e p s s₁ user coin i n ne distinct' (covers solvent) listed moved in
      settle-Solvent e p s₁ user i j n out fee done ne distinct' apart funded end

  -- Where a pool of different tokens holds its reserve and the protocol's fee in each, it still does
  -- after a swap to an exact output by anybody but the pool itself, which takes the given maximum
  -- and returns the rest, for tokens that move balances as documented and a plane that moves none.
  pub swap_strict_receive-covered :
      (e : Env) (p₀ : Stable) (s : S) (user : Address) (i j out most n : ℕ) (done : Stable × S)
      → user ≢ e.current_contract
      → Distinct p₀
      → Solvent o e.current_contract p₀ s
      → swap_strict_receive o update_plane e (p₀, s) user i j out most ≡ ok (n, done)
      → Solvent o e.current_contract done.0 done.1
  swap_strict_receive-covered e p₀ s user i j out most n done ne distinct solvent h =
      let (
        p, sync, _, _, xs, _, coin, listed, s₁, moved, y, _, x, solved, raw, _, dx, _, fee, _,
        refunded, _,
      ) =
        strict-eq-ok o update_plane e p₀ s user i j out most (n, done) h in
      let (tokens, covers) = sync-Solvent o e p₀ p s sync in
      let distinct' : Distinct p = rw tokens distinct in
      let apart = (get_y-IsRoot e p j i y x xs solved).0 in
      let (rest, _, s₂, returned, end, sum) =
        refund-eq-ok o update_plane e p s₁ user coin i j most dx out fee done refunded in
      let full =
        input-Funded e p s s₁ user coin i most ne distinct' (covers solvent) listed moved in
      let funded =
        refund-Funded e p s₁ s₂ user coin i most dx rest ne distinct' listed sum full returned in
      settle-Solvent e p s₂ user i j dx out fee done ne distinct' (λ same. apart (sym same)) funded
        end
