-- ===== src/Token/Moves.antt =====
-- What a transfer does to each balance.
use soroban_amm.Prelude.{◌≡◌, ◌≢◌, true, sym, subst, arith, ◌==◌, if◌then◌else◌}
use soroban_amm.Prelude.Dict.{lookup-insert}
use soroban_amm.Host.{Address, Env, ok}
use soroban_amm.Host.Integer.{ℤ, ◌+ℤ◌, ◌-ℤ◌, ◌≤ℤ◌, int_laws}
use soroban_amm.Token.State.{
  Token, PoolClient, read_balance, write_balance, receive_balance, spend_balance,
}
use soroban_amm.Token.Contract.{transfer, move_balance}
use soroban_amm.Token.Inversion.{split_move, transfer-eq-ok}

read_balance-write_balance :
    (s : Token) (a b : Address) (v : ℤ)
    → read_balance (write_balance s a v) b ≡ (if b == a then v else read_balance s b)
unfolding read_balance write_balance
read_balance-write_balance s a b v = ground (arith, lookup-insert a b v s.balances)

spend_balance-eq-ok :
    (s s' : Token) (f : Address) (x : ℤ)
    → spend_balance s f x ≡ ok s'
    → (s' ≡ write_balance s f (read_balance s f -ℤ x)) × (x ≤ℤ read_balance s f)
unfolding spend_balance
spend_balance-eq-ok s s' f x h = ground arith

receive_balance-eq-ok :
    (s s' : Token) (t : Address) (x : ℤ)
    → receive_balance s t x ≡ ok s'
    → s' ≡ write_balance s t (read_balance s t +ℤ x)
unfolding receive_balance
receive_balance-eq-ok s s' t x h = ground arith

-- The balances after a move of `x` from `f` to `t`.
abbrev pub Moved : Token → Address → Address → ℤ → Token → Type 0
Moved s f t x s' =
    (x ≤ℤ read_balance s f)
    × (f ≢ t
        → (read_balance s' f ≡ read_balance s f -ℤ x) × (read_balance s' t ≡ read_balance s t +ℤ x))
    × (f ≡ t → read_balance s' f ≡ read_balance s f)
    × ((a : Address) → a ≢ f → a ≢ t → read_balance s' a ≡ read_balance s a)

write_twice-Moved :
    (s : Token) (f t : Address) (x : ℤ)
    → x ≤ℤ read_balance s f
    → let s₁ = write_balance s f (read_balance s f -ℤ x) in
      Moved s f t x (write_balance s₁ t (read_balance s₁ t +ℤ x))
write_twice-Moved s f t x enough =
    let v = read_balance s f -ℤ x in
    let s₁ = write_balance s f v in
    let w = read_balance s₁ t +ℤ x in
    let back : read_balance s f -ℤ x +ℤ x ≡ read_balance s f = omega int_laws in
    let at_t = read_balance-write_balance s f t v in
    (
      enough,
      λ ne. (
        ground (arith, read_balance-write_balance s₁ t f w, read_balance-write_balance s f f v),
        ground (arith, read_balance-write_balance s₁ t t w, at_t),
      ),
      λ e. ground (arith, read_balance-write_balance s₁ t f w, at_t, back),
      λ a nf nt.
          ground (arith, read_balance-write_balance s₁ t a w, read_balance-write_balance s f a v),
    )

move_balance-Moved :
    (s s' : Token) (f t : Address) (x : ℤ) → move_balance s f t x ≡ ok s' → Moved s f t x s'
unfolding move_balance
move_balance-Moved s s' f t x h =
    let (s₁, spent, received) = split_move s s' f t x h in
    let (e₁, enough) = spend_balance-eq-ok s s₁ f x spent in
    let e₂ = receive_balance-eq-ok s₁ s' t x received in
    subst (Moved s f t x) (sym e₂) (
      subst (λ (u : Token). Moved s f t x (write_balance u t (read_balance u t +ℤ x))) (sym e₁)
        (write_twice-Moved s f t x enough))

-- A transfer that succeeds was authorized by the sender and covered by the sender's balance. It
-- moves the amount from one balance to the other, leaves the balance as it is when sender and
-- receiver are the same address, and touches no third balance.
pub transfer-Moved :
    {P : Type 0} (client : PoolClient P) (e : Env) (s s' : Token) (p p' : P) (f t : Address) (x : ℤ)
    → transfer client e (s, p) f t x ≡ ok (s', p')
    → (e.authorized f ≡ true) × Moved s f t x s'
transfer-Moved client e s s' p p' f t x h =
    let (moved, _, auth) = transfer-eq-ok client e s s' p p' f t x h in
    (auth, move_balance-Moved s s' f t x moved)
