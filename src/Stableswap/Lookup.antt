-- ===== src/Stableswap/Lookup.antt =====
-- Reading a vector after writing to it.
use soroban_amm.Prelude.{ℕ, zero, suc, ◌≡◌, ◌≢◌, List, [], ◌∷◌, arith, sym, ap, refl}
use soroban_amm.Host.{ok}
use soroban_amm.Stableswap.State.{get, set}

module _ {A : Type 0} where
  set-suc-eq-ok :
      (x : A) (xs l' : List A) (i : ℕ) (v : A)
      → set (x ∷ xs) (suc i) v ≡ ok l'
      → (rest : List A) × (set xs i v ≡ ok rest) × (x ∷ rest ≡ l')
  unfolding set
  set-suc-eq-ok x xs l' i v h = ground arith

  pub get-set : (l l' : List A) (i : ℕ) (v : A) → set l i v ≡ ok l' → get l' i ≡ ok v
  unfolding get set
  get-set [] l' i v h = ground arith
  get-set (x ∷ xs) l' zero v h = ground arith
  get-set (x ∷ xs) l' (suc i) v h =
      let (rest, e, same) = set-suc-eq-ok x xs l' i v h in rw (sym same) (get-set xs rest i v e)

  pub get-set_other :
      (l l' : List A) (i k : ℕ) (v : A) → set l i v ≡ ok l' → k ≢ i → get l' k ≡ get l k
  unfolding get set
  get-set_other [] l' i k v h ne = ground arith
  get-set_other (x ∷ xs) l' zero zero v h ne = ground arith
  get-set_other (x ∷ xs) l' zero (suc k) v h ne = ground arith
  get-set_other (x ∷ xs) l' (suc i) zero v h ne =
      let (rest, e, same) = set-suc-eq-ok x xs l' i v h in rw (sym same) refl
  get-set_other (x ∷ xs) l' (suc i) (suc k) v h ne =
      let (rest, e, same) = set-suc-eq-ok x xs l' i v h in
      rw (sym same) (get-set_other xs rest i k v e (λ eq. ne (ap suc eq)))
