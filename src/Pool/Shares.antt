-- ===== src/Pool/Shares.antt =====
-- What deposits and withdrawals do to the worth of a share.
use soroban_amm.Prelude.{ℕ, ◌+◌, ◌-◌, ◌*◌, ◌/◌, ◌^◌, ◌≤◌, ◌<◌, ◌≡◌, List, arith, ap, sym}
use soroban_amm.Prelude.Arith.{div-le_of, mul-le_of_le-div}
use soroban_amm.Host.{Address, Env, Math, ok}
use soroban_amm.Host.Integer.{as_i128, as_u128}
use soroban_amm.Pool.State.{Pool, Outside, sync_reserves}
use soroban_amm.Pool.Liquidity.{new_total_shares, value_of, deposit, withdraw}
use soroban_amm.Pool.Ledger.{sync-Solvent}
use soroban_amm.Pool.Inversion.{
  conclude-eq-ok, credit-eq-ok, deposit-eq-ok, redeem-eq-ok, withdraw-eq-ok,
}

-- Per share, `p'` holds no less of either token than `p`.
abbrev pub KeepsWorth : Pool → Pool → Type 0
KeepsWorth p p' =
    (p.reserve_a * p'.total_shares ≤ p'.reserve_a * p.total_shares)
    × (p.reserve_b * p'.total_shares ≤ p'.reserve_b * p.total_shares)

wrap_back : (n : ℕ) → n < 2 ^ 128 → as_u128 (as_i128 n) ≡ n
unfolding as_u128 as_i128
wrap_back n h = ground arith

module _ ⦃m : Math⦄ where
  total-le :
      (ra rb a b t total : ℕ)
      → 0 < ra
      → 0 < rb
      → new_total_shares ra rb a b t ≡ ok total
      → (total ≤ a * t / ra) × (total ≤ b * t / rb) × (total < 2 ^ 128)
  unfolding new_total_shares
  total-le ra rb a b t total pa pb h =
      ground (arith, m.fixed_mul_floor_lem a t ra, m.fixed_mul_floor_lem b t rb)

  value_of-eq-ok :
      (p : Pool) (n : ℕ) (out : ℕ × ℕ)
      → value_of p n ≡ ok out
      → (0 < p.total_shares)
        × (out.0 ≡ p.reserve_a * n / p.total_shares)
        × (out.1 ≡ p.reserve_b * n / p.total_shares)
  unfolding value_of
  value_of-eq-ok p n out h = ground (
    arith,
    m.fixed_mul_floor_lem p.reserve_a n p.total_shares,
    m.fixed_mul_floor_lem p.reserve_b n p.total_shares,
  )

worth_split : (q out n k : ℕ) → out * (n + k) ≤ (out + q) * n → (out + q) * k ≤ q * (n + k)
worth_split q out n k h = omega arith

worth_left : (r n t out : ℕ) → n ≤ t → out ≤ r → out * t ≤ r * n → r * (t - n) ≤ (r - out) * t
worth_left r n t out le le' h =
    let et : n + (t - n) ≡ t = omega arith in
    let er : out + (r - out) ≡ r = omega arith in
    let g = worth_split (r - out) out n (t - n) in (rw (et, er) at g) h

-- Shares that a deposit of `a` to `r` got are worth no more than it.
got_back_split : (r a t k : ℕ) → r * (t + k) ≤ (r + a) * t → (r + a) * k ≤ a * (t + k)
got_back_split r a t k h = omega arith

got_back :
    (r a t total out : ℕ)
    → 0 < total
    → t ≤ total
    → total * r ≤ (r + a) * t
    → out ≡ (r + a) * (total - t) / total
    → out ≤ a
got_back r a t total out pos le h e =
    let et : t + (total - t) ≡ total = omega arith in
    let g = got_back_split r a t (total - t) (rw et (omega arith)) in
    rw e (div-le_of ((r + a) * (total - t)) total a pos (omega (arith, (rw et at g))))

module _ ⦃m : Math⦄ {S : Type 0} (o : Outside S) where
  synced :
      (e : Env) (p₀ p : Pool) (s : S)
      → sync_reserves o e p₀ s ≡ ok p
      → p.reserves_sync_ledger ≡ e.sequence
  unfolding sync_reserves
  synced e p₀ p s h = ground arith

  same_ledger :
      (e : Env) (p q : Pool) (s : S)
      → p.reserves_sync_ledger ≡ e.sequence
      → sync_reserves o e p s ≡ ok q
      → (q.reserve_a ≡ p.reserve_a)
        × (q.reserve_b ≡ p.reserve_b)
        × (q.total_shares ≡ p.total_shares)
  unfolding sync_reserves
  same_ledger e p q s now h = (ground arith, ground arith, ground arith)

  -- A deposit into a pool with both reserves positive mints at least the shares asked for, adds
  -- the amounts it reports to the reserves and the shares to their total, marks the ledger as
  -- synced, and lowers neither token's reserve per share (as they stood after the sync).
  pub deposit-worth :
      (e : Env) (p₀ p' : Pool) (s s' : S) (user : Address) (l : List ℕ) (least shares : ℕ)
      (amounts : ℕ × ℕ)
      → 0 < p₀.reserve_a
      → 0 < p₀.reserve_b
      → deposit o e (p₀, s) user l least ≡ ok (amounts, shares, (p', s'))
      → (p : Pool) × (sync_reserves o e p₀ s ≡ ok p)
        × (least ≤ shares)
        × (p'.reserve_a ≡ p.reserve_a + amounts.0)
        × (p'.reserve_b ≡ p.reserve_b + amounts.1)
        × (p'.total_shares ≡ p.total_shares + shares)
        × KeepsWorth p p'
        × (p'.reserves_sync_ledger ≡ e.sequence)
  deposit-worth e p₀ p' s s' user l least shares amounts pa pb h =
      let (_, _, p, sync, _, _, _, _, _, _, taken, _, _, _, _, _, credited, ea, eb) =
        deposit-eq-ok o e p₀ p' s s' user l least shares amounts h in
      let (total, et, minted, em, s₁, _, held, _, done, le, enough, es) =
        credit-eq-ok o p _ user _ least _ _ shares (p', s') credited in
      let (_, _, _, ep) = conclude-eq-ok o _ p' s₁ s' user 0 0 total held done in
      let (_, _, _, _, ra, rb, _) = sync-Solvent o e p₀ p s sync in
      let (la, lb, small) = total-le _ _ _ _ _ _ (omega arith) (omega arith) et in
      let e_minted : minted ≡ total - p.total_shares = ground arith in
      let wrap = wrap_back minted (omega arith) in
      let e_a : p.reserve_a + taken.0 ≡ p'.reserve_a = ap (λ (q : Pool). q.reserve_a) ep in
      let e_b : p.reserve_b + taken.1 ≡ p'.reserve_b = ap (λ (q : Pool). q.reserve_b) ep in
      let e_t : p.total_shares + as_u128 (as_i128 minted) ≡ p'.total_shares =
        ap (λ (q : Pool). q.total_shares) ep in
      let e_total : p'.total_shares ≡ total = omega arith in
      let ga : total * p.reserve_a ≤ (p.reserve_a + taken.0) * p.total_shares =
        mul-le_of_le-div _ p.reserve_a total (omega arith) la in
      let gb : total * p.reserve_b ≤ (p.reserve_b + taken.1) * p.total_shares =
        mul-le_of_le-div _ p.reserve_b total (omega arith) lb in
      let ka : total * p.reserve_a ≤ p'.reserve_a * p.total_shares = rw (sym e_a) ga in
      let kb : total * p.reserve_b ≤ p'.reserve_b * p.total_shares = rw (sym e_b) gb in
      (
        p,
        sync,
        omega arith,
        omega arith,
        omega arith,
        omega arith,
        (rw e_total (omega arith), rw e_total (omega arith)),
        omega (arith, ap (λ (q : Pool). q.reserves_sync_ledger) ep, synced e p₀ p s sync),
      )

  -- A withdrawal pays the shares' part of each reserve, rounded down, takes just that from the
  -- reserves and these shares from their total, and lowers neither token's reserve per share (as
  -- they stood after the sync).
  pub withdraw-worth :
      (e : Env) (p₀ p' : Pool) (s s' : S) (user : Address) (n : ℕ) (l : List ℕ) (out : ℕ × ℕ)
      → withdraw o e (p₀, s) user n l ≡ ok (out, (p', s'))
      → (p : Pool) × (sync_reserves o e p₀ s ≡ ok p)
        × (n ≤ p.total_shares)
        × (out.0 ≡ p.reserve_a * n / p.total_shares)
        × (out.1 ≡ p.reserve_b * n / p.total_shares)
        × (p'.total_shares ≡ p.total_shares - n)
        × (p'.reserve_a + out.0 ≡ p.reserve_a)
        × (p'.reserve_b + out.1 ≡ p.reserve_b)
        × KeepsWorth p p'
  withdraw-worth e p₀ p' s s' user n l out h =
      let (_, _, p, sync, _, _, _, _, paid, valued, _, _, _, _, redeemed, _, _, le, ea, eb) =
        withdraw-eq-ok o e p₀ s user n l out (p', s') h in
      let (done, la, lb) = redeem-eq-ok o p _ _ user _ n paid.0 paid.1 (p', s') redeemed in
      let (_, _, _, ep) = conclude-eq-ok o _ p' _ s' user _ _ _ _ done in
      let (pos, va, vb) = value_of-eq-ok p n paid valued in
      let e_a : p.reserve_a - paid.0 ≡ p'.reserve_a = ap (λ (q : Pool). q.reserve_a) ep in
      let e_b : p.reserve_b - paid.1 ≡ p'.reserve_b = ap (λ (q : Pool). q.reserve_b) ep in
      let e_t : p.total_shares - n ≡ p'.total_shares = ap (λ (q : Pool). q.total_shares) ep in
      let ga : paid.0 * p.total_shares ≤ p.reserve_a * n =
        mul-le_of_le-div _ p.total_shares paid.0 pos (omega arith) in
      let gb : paid.1 * p.total_shares ≤ p.reserve_b * n =
        mul-le_of_le-div _ p.total_shares paid.1 pos (omega arith) in
      (
        p,
        sync,
        le,
        omega arith,
        omega arith,
        omega arith,
        omega arith,
        omega arith,
        (
          rw (e_t, e_a) at (worth_left p.reserve_a n p.total_shares paid.0 le la ga),
          rw (e_t, e_b) at (worth_left p.reserve_b n p.total_shares paid.1 le lb gb),
        ),
      )

  -- Whoever deposits into a pool with reserves and shares, and withdraws the new shares in the
  -- same ledger, gets no more of either token back than the deposit took.
  pub deposit-withdraw :
      (e : Env) (p₀ p' p'' : Pool) (s s' t t' : S) (user : Address) (l k : List ℕ)
      (least shares : ℕ) (amounts out : ℕ × ℕ)
      → 0 < p₀.reserve_a
      → 0 < p₀.reserve_b
      → 0 < p₀.total_shares
      → deposit o e (p₀, s) user l least ≡ ok (amounts, shares, (p', s'))
      → withdraw o e (p', t) user shares k ≡ ok (out, (p'', t'))
      → (out.0 ≤ amounts.0) × (out.1 ≤ amounts.1)
  deposit-withdraw e p₀ p' p'' s s' t t' user l k least shares amounts out pa pb pt h h' =
      let (p, sync, _, ea, eb, et, (wa, wb), now) =
        deposit-worth e p₀ p' s s' user l least shares amounts pa pb h in
      let (q, again, _, oa, ob, _, _, _, _) = withdraw-worth e p' p'' t t' user shares k out h' in
      let (qa, qb, qt) = same_ledger e p' q t now again in
      let (_, _, _, e_total, _, _, _) = sync-Solvent o e p₀ p s sync in
      let ra : q.reserve_a ≡ p.reserve_a + amounts.0 = omega arith in
      let rb : q.reserve_b ≡ p.reserve_b + amounts.1 = omega arith in
      let total : q.total_shares ≡ p'.total_shares = omega arith in
      let left : shares ≡ p'.total_shares - p.total_shares = omega arith in
      let ka : p.reserve_a * p'.total_shares ≤ (p.reserve_a + amounts.0) * p.total_shares =
        rw ea at wa in
      let kb : p.reserve_b * p'.total_shares ≤ (p.reserve_b + amounts.1) * p.total_shares =
        rw eb at wb in
      let pos : 0 < p'.total_shares = omega arith in
      let le : p.total_shares ≤ p'.total_shares = omega arith in
      (
        got_back p.reserve_a amounts.0 p.total_shares p'.total_shares out.0 pos le
            (omega (arith, ka)) (rw (ra, total, left) at oa),
        got_back p.reserve_b amounts.1 p.total_shares p'.total_shares out.1 pos le
            (omega (arith, kb)) (rw (rb, total, left) at ob),
      )
