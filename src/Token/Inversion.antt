-- ===== src/Token/Inversion.antt =====
-- The parts of the calls that succeeded.
use soroban_amm.Prelude.{◌≡◌, arith, true}
use soroban_amm.Host.{Address, Env, ok}
use soroban_amm.Host.Integer.{ℤ, pos, ◌≤ℤ◌}
use soroban_amm.Token.State.{
  Token, PoolClient, spend_balance, receive_balance, spend_allowance, check_nonnegative_amount,
}
use soroban_amm.Token.Contract.{transfer, transfer_from, burn_from, move_balance}

-- A move that succeeded spent first, and what was spent was then received.
pub split_move :
    (s s' : Token) (f t : Address) (x : ℤ)
    → move_balance s f t x ≡ ok s'
    → (s₁ : Token) × (spend_balance s f x ≡ ok s₁) × (receive_balance s₁ t x ≡ ok s')
unfolding move_balance
split_move s s' f t x h = ground arith

-- What a successful transfer did to the token: only `move_balance` touched it.
pub transfer-eq-ok :
    {P : Type 0} (client : PoolClient P) (e : Env) (s s' : Token) (p p' : P) (f t : Address) (x : ℤ)
    → transfer client e (s, p) f t x ≡ ok (s', p')
    → (move_balance s f t x ≡ ok s') × (pos 0 ≤ℤ x) × (e.authorized f ≡ true)
unfolding transfer check_nonnegative_amount
transfer-eq-ok client e s s' p p' f t x h = ground arith

pub transfer_from-eq-ok :
    {P : Type 0} (client : PoolClient P) (e : Env) (s s' : Token) (p p' : P) (sp f t : Address)
    (x : ℤ)
    → transfer_from client e (s, p) sp f t x ≡ ok (s', p')
    → (s₁ : Token) × (spend_allowance e s f sp x ≡ ok s₁)
      × (move_balance s₁ f t x ≡ ok s')
      × (pos 0 ≤ℤ x)
      × (e.authorized sp ≡ true)
unfolding transfer_from check_nonnegative_amount
transfer_from-eq-ok client e s s' p p' sp f t x h = ground arith

pub burn_from-eq-ok :
    (e : Env) (s s' : Token) (sp f : Address) (x : ℤ)
    → burn_from e s sp f x ≡ ok s'
    → (s₁ : Token) × (spend_allowance e s f sp x ≡ ok s₁)
      × (spend_balance s₁ f x ≡ ok s')
      × (pos 0 ≤ℤ x)
unfolding burn_from check_nonnegative_amount
burn_from-eq-ok e s s' sp f x h = ground arith
