-- ===== src/Token/Allowance.antt =====
-- Spending by a third party stays within what the owner approved.
use soroban_amm.Prelude.{ℕ, ◌<◌, ◌≤◌, ◌≡◌, ◌≢◌, ◌⊎◌, ap, ◌∙◌, true, arith}
use soroban_amm.Host.{Address, Env, ok}
use soroban_amm.Host.Integer.{ℤ, pos, ◌-ℤ◌, ◌≤ℤ◌}
use soroban_amm.Token.State.{
  Token, PoolClient, read_allowance, spend_allowance, spend_balance, receive_balance, write_balance,
  check_nonnegative_amount, write_allowance,
}
use soroban_amm.Token.Contract.{allowance, approve, transfer_from, burn_from, move_balance}
use soroban_amm.Token.Inversion.{transfer_from-eq-ok, burn_from-eq-ok}

-- Approving sets the allowance, and as long as the ledger has not passed its expiration it reads
-- as approved; afterwards it reads as zero.
pub approve-allowance :
    (e e' : Env) (s s' : Token) (f sp : Address) (x : ℤ) (l : ℕ)
    → approve e s f sp x l ≡ ok s'
    → (e'.sequence ≤ l → allowance e' s' f sp ≡ x)
      × (l < e'.sequence → allowance e' s' f sp ≡ pos 0)
unfolding approve allowance check_nonnegative_amount write_allowance read_allowance
approve-allowance e e' s s' f sp x l h = (λ live. ground arith, λ expired. ground arith)

-- The allowances after `sp` spends `x` of what `f` approved.
abbrev pub Spent : Env → Token → Address → Address → ℤ → Token → Type 0
Spent e s f sp x s' =
    (x ≤ℤ allowance e s f sp)
    × (allowance e s' f sp ≡ allowance e s f sp -ℤ x)
    × ((g t : Address) → (g ≢ f) ⊎ (t ≢ sp) → s'.allowances g t ≡ s.allowances g t)

spend_allowance-Spent :
    (e : Env) (s s' : Token) (f sp : Address) (x : ℤ)
    → pos 0 ≤ℤ x
    → spend_allowance e s f sp x ≡ ok s'
    → Spent e s f sp x s'
unfolding spend_allowance allowance ◌-ℤ◌
spend_allowance-Spent e s s' f sp x hx h = (ground arith, ground arith, λ g t other. ground arith)

move_balance-allowances :
    (s s' : Token) (f t : Address) (x : ℤ)
    → move_balance s f t x ≡ ok s'
    → s'.allowances ≡ s.allowances
unfolding move_balance spend_balance receive_balance write_balance
move_balance-allowances s s' f t x h = ground arith

read_allowance-congr :
    (e : Env) (s s' : Token) (f sp : Address)
    → s'.allowances ≡ s.allowances
    → read_allowance e s' f sp ≡ read_allowance e s f sp
unfolding read_allowance
read_allowance-congr e s s' f sp same = rw (same, read_allowance)

Spent-after :
    (e : Env) (s s₁ s' : Token) (f sp : Address) (x : ℤ)
    → s'.allowances ≡ s₁.allowances
    → Spent e s f sp x s₁
    → Spent e s f sp x s'
unfolding allowance
Spent-after e s s₁ s' f sp x same a = (
  a.0,
  ap (λ v. v.amount) (read_allowance-congr e s₁ s' f sp same) ∙ a.1,
  λ g t o. ap (λ F. F g t) same ∙ a.2 g t o,
)

-- A third party that transfers stays within the allowance, which falls by the amount; every other
-- allowance is as before.
pub transfer_from-Spent :
    {P : Type 0} (client : PoolClient P) (e : Env) (s s' : Token) (p p' : P) (sp f t : Address)
    (x : ℤ)
    → transfer_from client e (s, p) sp f t x ≡ ok (s', p')
    → (e.authorized sp ≡ true) × Spent e s f sp x s'
unfolding allowance
transfer_from-Spent client e s s' p p' sp f t x h =
    let (s₁, spent, moved, hx, auth) = transfer_from-eq-ok client e s s' p p' sp f t x h in
    let same = move_balance-allowances s₁ s' f t x moved in
    let a = spend_allowance-Spent e s s₁ f sp x hx spent in
    (auth, Spent-after e s s₁ s' f sp x same a)

-- The same holds of a third party that burns.
pub burn_from-Spent :
    (e : Env) (s s' : Token) (sp f : Address) (x : ℤ)
    → burn_from e s sp f x ≡ ok s'
    → Spent e s f sp x s'
unfolding spend_balance write_balance
burn_from-Spent e s s' sp f x h =
    let (s₁, spent, burned, hx) = burn_from-eq-ok e s s' sp f x h in
    Spent-after e s s₁ s' f sp x (ground arith) (spend_allowance-Spent e s s₁ f sp x hx spent)
