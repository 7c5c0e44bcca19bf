-- ===== src/Token/Total.antt =====
-- The supply: the sum of the balances, under every entry point of the contract.
use Prim.Native.String.{String}
use soroban_amm.Prelude.{ℕ, ◌≡◌, ap, sym, arith}
use soroban_amm.Host.{Address, Env, Result, ok}
use soroban_amm.Host.Integer.{ℤ, pos, ◌+ℤ◌, ◌-ℤ◌}
use soroban_amm.Token.State.{
  Token, PoolClient, write_allowance, spend_allowance, check_nonnegative_amount,
}
use soroban_amm.Token.Inversion.{transfer-eq-ok, transfer_from-eq-ok, burn_from-eq-ok}
use soroban_amm.Token.Calls.{
  Call, initialize_call, mint_call, approve_call, transfer_call, transfer_from_call, burn_call,
  burn_from_call, upgrade_call, commit_call, apply_call, revert_call, with_pool, invoke, minted,
}
use soroban_amm.Token.Supply.{
  sum, total, IsValid, Supplies, receive_balance-Supplies, spend_balance-Supplies, same-Supplies,
  move_balance-Supplies,
}
use soroban_amm.Token.Contract.{initialize, mint, approve, transfer_from, burn, burn_from, upgrade}

write_allowance-same :
    (e : Env) (s s' : Token) (f sp : Address) (x : ℤ) (l : ℕ)
    → write_allowance e s f sp x l ≡ ok s'
    → s'.balances ≡ s.balances
unfolding write_allowance
write_allowance-same e s s' f sp x l h = ground arith

spend_allowance-same :
    (e : Env) (s s' : Token) (f sp : Address) (x : ℤ)
    → spend_allowance e s f sp x ≡ ok s'
    → s'.balances ≡ s.balances
unfolding spend_allowance
spend_allowance-same e s s' f sp x h = ground arith

transfer_from-Supplies :
    {P : Type 0} (client : PoolClient P) (e : Env) (s s' : Token) (p p' : P) (sp f t : Address)
    (x : ℤ)
    → IsValid s
    → transfer_from client e (s, p) sp f t x ≡ ok (s', p')
    → Supplies s (pos 0) s'
transfer_from-Supplies client e s s' p p' sp f t x v h =
    let (s₁, spent, moved, hx, _) = transfer_from-eq-ok client e s s' p p' sp f t x h in
    let same = spend_allowance-same e s s₁ f sp x spent in
    rw (ap sum (sym same)) (move_balance-Supplies s₁ s' f t x (rw same v) hx moved)

with_pool-eq-ok :
    {P : Type 0} (p p' : P) (r : Result Token) {s' : Token}
    → with_pool p r ≡ ok (s', p')
    → r ≡ ok s'
with_pool-eq-ok p p' r h = ground arith

mint-Supplies :
    (e : Env) (s s' : Token) (t : Address) (x : ℤ)
    → IsValid s
    → mint e s t x ≡ ok s'
    → Supplies s x s'
unfolding mint check_nonnegative_amount
mint-Supplies e s s' t x v h = receive_balance-Supplies s s' t x v (ground arith) (ground arith)

burn-Supplies :
    (e : Env) (s s' : Token) (f : Address) (x : ℤ)
    → IsValid s
    → burn e s f x ≡ ok s'
    → Supplies s (pos 0 -ℤ x) s'
unfolding burn
burn-Supplies e s s' f x v h = spend_balance-Supplies s s' f x v (ground arith)

burn_from-Supplies :
    (e : Env) (s s' : Token) (sp f : Address) (x : ℤ)
    → IsValid s
    → burn_from e s sp f x ≡ ok s'
    → Supplies s (pos 0 -ℤ x) s'
burn_from-Supplies e s s' sp f x v h =
    let (s₁, spent, burned, _) = burn_from-eq-ok e s s' sp f x h in
    let same = spend_allowance-same e s s₁ f sp x spent in
    rw (ap sum (sym same)) (spend_balance-Supplies s₁ s' f x (rw same v) burned)

approve-same :
    (e : Env) (s s' : Token) (f sp : Address) (x : ℤ) (l : ℕ)
    → approve e s f sp x l ≡ ok s'
    → s'.balances ≡ s.balances
unfolding approve
approve-same e s s' f sp x l h = write_allowance-same e s s' f sp x l (ground arith)

initialize-same :
    (s s' : Token) (a : Address) (d : ℕ) (n y : String)
    → initialize s a d n y ≡ ok s'
    → s'.balances ≡ s.balances
unfolding initialize
initialize-same s s' a d n y h = ground arith

upgrade-same :
    (e : Env) (s s' : Token) (a : Address) (w : ℕ)
    → upgrade e s a w ≡ ok s'
    → s'.balances ≡ s.balances
unfolding upgrade
upgrade-same e s s' a w h = ground arith

-- Every call that succeeds keeps all balances non-negative and changes the sum of the balances by
-- exactly what it mints (less what it burns); transfers, allowances and the administration change
-- nothing.
pub invoke-total :
    {P : Type 0} (client : PoolClient P) (e : Env) (s s' : Token) (p p' : P) (c : Call)
    → IsValid s
    → invoke client e (s, p) c ≡ ok (s', p')
    → IsValid s' × (total s' ≡ total s +ℤ minted c)
unfolding invoke
invoke-total client e s s' p p' (initialize_call a d n y) v h =
    same-Supplies s s' v (initialize-same s s' a d n y (with_pool-eq-ok p p' _ h))
invoke-total client e s s' p p' (mint_call t x) v h =
    mint-Supplies e s s' t x v (with_pool-eq-ok p p' _ h)
invoke-total client e s s' p p' (approve_call f sp x l) v h =
    same-Supplies s s' v (approve-same e s s' f sp x l (with_pool-eq-ok p p' _ h))
invoke-total client e s s' p p' (transfer_call f t x) v h =
    let (moved, hx, _) = transfer-eq-ok client e s s' p p' f t x h in
    move_balance-Supplies s s' f t x v hx moved
invoke-total client e s s' p p' (transfer_from_call sp f t x) v h =
    transfer_from-Supplies client e s s' p p' sp f t x v h
invoke-total client e s s' p p' (burn_call f x) v h =
    burn-Supplies e s s' f x v (with_pool-eq-ok p p' _ h)
invoke-total client e s s' p p' (burn_from_call sp f x) v h =
    burn_from-Supplies e s s' sp f x v (with_pool-eq-ok p p' _ h)
invoke-total client e s s' p p' (upgrade_call a w) v h =
    same-Supplies s s' v (upgrade-same e s s' a w (with_pool-eq-ok p p' _ h))
invoke-total client e s s' p p' (commit_call a r n) v h = same-Supplies s s' v (ground arith)
invoke-total client e s s' p p' (apply_call a r) v h = same-Supplies s s' v (ground arith)
invoke-total client e s s' p p' (revert_call a r) v h = same-Supplies s s' v (ground arith)
