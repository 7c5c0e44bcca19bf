-- ===== src/Stableswap/Solvency.antt =====
-- The books of the stableswap pool against its balances, and their sync.
pub mod Trades
use soroban_amm.Prelude.{
  ℕ, zero, suc, ◌+◌, ◌≤◌, ◌≡◌, ◌≢◌, arith, List, [], ◌∷◌, ltb, ◌==◌, if◌then◌else◌, Bool-cases, inl,
  inr, sym, ◌⊎◌, refl,
}
use soroban_amm.Host.{Address, Env, ok, sub_checked}
use soroban_amm.Pool.State.{Outside, sync_reserve}
use soroban_amm.Stableswap.State.{Stable, get}
use soroban_amm.Stableswap.Reserves.{sync_all, sync_reserves}

-- Each token of the pool at `self` covers its reserve and fee, and the input `n` at index `i`.
abbrev pub Funded : {S : Type 0} → Outside S → Address → Stable → ℕ → ℕ → S → Type 0
Funded o self p i n s =
    (k t r f : ℕ)
    → get p.tokens k ≡ ok t
    → get p.reserves k ≡ ok r
    → get p.protocol_fees k ≡ ok f
    → r + f + (if k == i then n else 0) ≤ o.balance t self s

abbrev pub Solvent : {S : Type 0} → Outside S → Address → Stable → S → Type 0
Solvent o self p s =
    (k t r f : ℕ)
    → get p.tokens k ≡ ok t
    → get p.reserves k ≡ ok r
    → get p.protocol_fees k ≡ ok f
    → r + f ≤ o.balance t self s

-- No token is listed twice.
abbrev pub Distinct : Stable → Type 0
Distinct p = (k l t : ℕ) → get p.tokens k ≡ ok t → get p.tokens l ≡ ok t → k ≡ l

module _ {S : Type 0} (o : Outside S) where
  sync_all-eq-ok :
      (e : Env) (t r f : ℕ) (ts rs fs l : List ℕ) (s : S)
      → sync_all o e (t ∷ ts) (r ∷ rs) (f ∷ fs) s ≡ ok l
      → (r' : ℕ) × (sync_reserve o e t r f s ≡ ok r')
        × (rest : List ℕ) × (sync_all o e ts rs fs s ≡ ok rest)
        × (l ≡ r' ∷ rest)
  unfolding sync_all
  sync_all-eq-ok e t r f ts rs fs l s h = ground arith

  sync_reserve-covered :
      (e : Env) (t r f r' : ℕ) (s : S)
      → sync_reserve o e t r f s ≡ ok r'
      → r + f ≤ o.balance t e.current_contract s
      → r' + f ≤ o.balance t e.current_contract s
  unfolding sync_reserve
  sync_reserve-covered e t r f r' s h covered = ground arith

  sync_all-covered :
      (e : Env) (ts rs fs l : List ℕ) (s : S)
      → sync_all o e ts rs fs s ≡ ok l
      → (k t r' f : ℕ) → get ts k ≡ ok t
      → get l k ≡ ok r'
      → get fs k ≡ ok f
      → (r : ℕ) × (get rs k ≡ ok r)
        × (r + f ≤ o.balance t e.current_contract s → r' + f ≤ o.balance t e.current_contract s)
  unfolding sync_all get
  sync_all-covered e [] rs fs l s h k t r' f ht hr hf = ground arith
  sync_all-covered e (u ∷ ts) [] fs l s h k t r' f ht hr hf = ground arith
  sync_all-covered e (u ∷ ts) (v ∷ rs) [] l s h k t r' f ht hr hf = ground arith
  sync_all-covered e (u ∷ ts) (v ∷ rs) (w ∷ fs) l s h zero t r' f ht hr hf =
      let (v', head, rest, tail, same) = sync_all-eq-ok e u v w ts rs fs l s h in
      let first : ok v' ≡ ok r' = rw same at hr in
      let head' : sync_reserve o e t v f s ≡ ok r' = ground arith in
      (v, refl, sync_reserve-covered e t v f r' s head')
  sync_all-covered e (u ∷ ts) (v ∷ rs) (w ∷ fs) l s h (suc k) t r' f ht hr hf =
      let (v', head, rest, tail, same) = sync_all-eq-ok e u v w ts rs fs l s h in
      let later : get rest k ≡ ok r' = rw same at hr in
      sync_all-covered e ts rs fs rest s tail k t r' f ht later hf

  sync-eq-ok :
      (e : Env) (p₀ p : Stable) (s : S)
      → sync_reserves o e p₀ s ≡ ok p
      → (p.tokens ≡ p₀.tokens)
        × (p.protocol_fees ≡ p₀.protocol_fees)
        × ((p.reserves ≡ p₀.reserves)
            ⊎ (sync_all o e p₀.tokens p₀.reserves p₀.protocol_fees s ≡ ok p.reserves))
  unfolding sync_reserves
  sync-eq-ok e p₀ p s h = (ground arith, ground arith, ground arith)

  -- A sync changes no token, and keeps the books covered.
  pub sync-Solvent :
      (e : Env) (p₀ p : Stable) (s : S)
      → sync_reserves o e p₀ s ≡ ok p
      → (p.tokens ≡ p₀.tokens)
        × (Solvent o e.current_contract p₀ s → Solvent o e.current_contract p s)
  sync-Solvent e p₀ p s h =
      let (tokens, fees, reserves) = sync-eq-ok e p₀ p s h in
      (
        tokens,
        λ solvent k t r f ht hr hf.
            let ht' : get p₀.tokens k ≡ ok t = rw (sym tokens) ht in
            let hf' : get p₀.protocol_fees k ≡ ok f = rw (sym fees) hf in
            elim reserves [
              | inl kept ↦
                  let hr' : get p₀.reserves k ≡ ok r = rw (sym kept) hr in
                  solvent k t r f ht' hr' hf'
              | inr synced ↦
                  let (r₀, old, keeps) =
                    sync_all-covered e p₀.tokens p₀.reserves p₀.protocol_fees p.reserves s synced k
                      t r f ht' hr hf' in
                  keeps (solvent k t r₀ f ht' old hf')
            ],
      )
