-- ===== src/Token/Supply.antt =====
-- The sum of the balances, under the operations on them.
use soroban_amm.Prelude.{ℕ, ◌≡◌, ◌∙◌, ap, Option, none, some, [], ◌∷◌, arith}
use soroban_amm.Prelude.Dict.{Dict, lookup, insert}
use soroban_amm.Host.{Address, ok}
use soroban_amm.Host.Integer.{ℤ, pos, ◌+ℤ◌, ◌-ℤ◌, ◌≤ℤ◌, int_laws, +ℤ_gain, +ℤ_loss}
use soroban_amm.Token.State.{Token, read_balance, write_balance, receive_balance, spend_balance}
use soroban_amm.Token.Inversion.{split_move}
use soroban_amm.Token.Contract.{move_balance}

abbrev pub sum : Dict ℤ → ℤ
sum [] = pos 0
sum ((k, v) ∷ d) = v +ℤ sum d

abbrev pub total : Token → ℤ
total s = sum s.balances

abbrev AllNonneg : Dict ℤ → Type 0
AllNonneg [] = Unit
AllNonneg ((k, v) ∷ d) = (pos 0 ≤ℤ v) × AllNonneg d

-- No balance is negative.
abbrev pub IsValid : Token → Type 0
IsValid s = AllNonneg s.balances

balance_of : Option ℤ → ℤ
balance_of none = pos 0
balance_of (some v) = v

sum-insert :
    (k : ℕ) (v : ℤ) (d : Dict ℤ) → sum (insert k v d) +ℤ balance_of (lookup k d) ≡ sum d +ℤ v
unfolding balance_of
sum-insert k v [] = omega int_laws
sum-insert k v (x ∷ d) = grind (int_laws, sum-insert k v d)

insert-AllNonneg :
    (k : ℕ) (v : ℤ) (d : Dict ℤ) → AllNonneg d → pos 0 ≤ℤ v → AllNonneg (insert k v d)
insert-AllNonneg k v [] h hv = (hv, tt)
insert-AllNonneg k v (x ∷ d) h hv = ground (arith, insert-AllNonneg k v d h.1 hv)

lookup-nonneg : (k : ℕ) (d : Dict ℤ) → AllNonneg d → pos 0 ≤ℤ balance_of (lookup k d)
unfolding balance_of
lookup-nonneg k [] h = omega arith
lookup-nonneg k (x ∷ d) h = ground (arith, lookup-nonneg k d h.1)

pub read_balance-nonneg : (s : Token) (a : Address) → IsValid s → pos 0 ≤ℤ read_balance s a
unfolding read_balance balance_of
read_balance-nonneg s a h = ground (arith, lookup-nonneg a s.balances h)

write_balance-total :
    (s : Token) (a : Address) (v : ℤ)
    → total (write_balance s a v) +ℤ read_balance s a ≡ total s +ℤ v
unfolding write_balance read_balance balance_of
write_balance-total s a v = ground (arith, sum-insert a v s.balances)

-- What an operation on the balances did: the supply moved by `x`, and no balance became negative.
abbrev pub Supplies : Token → ℤ → Token → Type 0
Supplies s x s' = IsValid s' × (total s' ≡ total s +ℤ x)

pub receive_balance-Supplies :
    (s s' : Token) (a : Address) (x : ℤ)
    → IsValid s
    → pos 0 ≤ℤ x
    → receive_balance s a x ≡ ok s'
    → Supplies s x s'
unfolding receive_balance write_balance
receive_balance-Supplies s s' a x v hx h =
    let new = read_balance s a +ℤ x in
    let le : pos 0 ≤ℤ new = omega (int_laws, read_balance-nonneg s a v) in
    let kept = insert-AllNonneg a new s.balances v le in
    let moved = write_balance-total s a new in
    let e : s' ≡ write_balance s a new = ground arith in
    rw e (kept, +ℤ_gain _ (read_balance s a) _ x moved)

pub spend_balance-Supplies :
    (s s' : Token) (a : Address) (x : ℤ)
    → IsValid s
    → spend_balance s a x ≡ ok s'
    → Supplies s (pos 0 -ℤ x) s'
unfolding spend_balance write_balance
spend_balance-Supplies s s' a x v h =
    let new = read_balance s a -ℤ x in
    let enough : x ≤ℤ read_balance s a = ground arith in
    let le : pos 0 ≤ℤ new = omega int_laws in
    let kept = insert-AllNonneg a new s.balances v le in
    let moved = write_balance-total s a new in
    let e : s' ≡ write_balance s a new = ground arith in
    rw e (kept, +ℤ_loss _ (read_balance s a) _ x moved)

-- An operation that leaves the balances alone.
pub same-Supplies : (s s' : Token) → IsValid s → s'.balances ≡ s.balances → Supplies s (pos 0) s'
same-Supplies s s' v e = rw (e, total) (v, omega int_laws)

regain : (s x : ℤ) → s +ℤ (pos 0 -ℤ x) +ℤ x ≡ s +ℤ pos 0
regain s x = omega int_laws

pub move_balance-Supplies :
    (s s' : Token) (f t : Address) (x : ℤ)
    → IsValid s
    → pos 0 ≤ℤ x
    → move_balance s f t x ≡ ok s'
    → Supplies s (pos 0) s'
unfolding move_balance
move_balance-Supplies s s' f t x v hx h =
    let (s₁, spent, received) = split_move s s' f t x h in
    let a = spend_balance-Supplies s s₁ f x v spent in
    let b = receive_balance-Supplies s₁ s' t x a.0 hx received in
    (b.0, b.1 ∙ ap (λ u. u +ℤ x) a.1 ∙ regain (total s) x)
