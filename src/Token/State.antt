-- ===== src/Token/State.antt =====
-- token/src/{balance,allowance,pool,metadata}.rs: what the token stores, and the pool it calls.
use Prim.Native.String.{String}
use soroban_amm.Prelude.{
  ℕ, ◌-◌, ◌&&◌, not, true, false, Option, none, some, ltb, leb, ◌==◌, if◌then◌else◌,
}
use soroban_amm.Prelude.Dict.{Dict, lookup, insert}
use soroban_amm.Host.{
  Address, Env, Result, ok, err, ◌>>=◌, ◌>>◌, panic_if, host, trap, token, insufficient_balance,
  insufficient_allowance, past_time_not_allowed, negative_not_allowed,
}
use soroban_amm.Host.Integer.{ℤ, pos, ◌+ℤ◌, ◌-ℤ◌, ltb_ℤ, fit_i128, as_u128}
use soroban_amm.Access.Roles.{Role}
use soroban_amm.Access.Store.{Access, get_role}

-- `AllowanceValue`
pub record AllowanceValue : Type 0 where
  pub amount : ℤ
  pub expiration_ledger : ℕ

-- `TokenMetadata`
pub record Metadata : Type 0 where
  pub decimal : ℕ
  pub name : String
  pub symbol : String

-- The token's storage: `DataKey::Balance(address)` is a map of addresses, and
-- `DataKey::Allowance(from, spender)` one of pairs. `wasm` is the code that the contract runs.
pub record Token : Type 0 where
  pub access : Access
  pub balances : Dict ℤ
  pub allowances : Address → Address → Option AllowanceValue
  pub metadata : Option Metadata
  pub wasm : ℕ

-- The pool that administers the token, as the token calls it: each call names the token, the user
-- and the balance, and may change the pool's state or fail.
pub record PoolClient (P : Type 0) : Type 0 where
  pub checkpoint_reward : Address → Address → ℕ → P → Result P
  pub checkpoint_working_balance : Address → Address → ℕ → P → Result P

unfoldable pub read_balance : Token → Address → ℤ
read_balance s addr = elim (lookup addr s.balances) [ some balance ↦ balance | none ↦ pos 0 ]

unfoldable pub write_balance : Token → Address → ℤ → Token
write_balance s addr amount = record s { balances = insert addr amount s.balances }

unfoldable pub receive_balance : Token → Address → ℤ → Result Token
receive_balance s addr amount = do
  balance ← fit_i128 (read_balance s addr +ℤ amount)
  ok (write_balance s addr balance)

unfoldable pub spend_balance : Token → Address → ℤ → Result Token
spend_balance s addr amount = do
  let balance = read_balance s addr
  panic_if (ltb_ℤ balance amount) (token insufficient_balance)
  rest ← fit_i128 (balance -ℤ amount)
  ok (write_balance s addr rest)

-- An expired allowance reads as zero; a missing one as `AllowanceValue::default()`.
unfoldable pub read_allowance : Env → Token → Address → Address → AllowanceValue
read_allowance e s from spender = elim (s.allowances from spender) [
  | some allowance ↦
      if ltb allowance.expiration_ledger e.sequence
      then record allowance { amount = pos 0 }
      else allowance
  | none ↦ record { amount = pos 0; expiration_ledger = 0 }
]

abbrev pub set_allowance :
    (Address → Address → Option AllowanceValue)
    → Address
    → Address
    → AllowanceValue
    → Address
    → Address
    → Option AllowanceValue
set_allowance f from spender v a b = if a == from && b == spender then some v else f a b

-- The `checked_sub(..).unwrap()` on the time to live is `live_for`.
unfoldable pub write_allowance : Env → Token → Address → Address → ℤ → ℕ → Result Token
write_allowance e s from spender amount expiration_ledger = do
  let positive = ltb_ℤ (pos 0) amount
  panic_if (positive && ltb expiration_ledger e.sequence) (token past_time_not_allowed)
  let s₁ = record s {
    allowances =
        set_allowance s.allowances from spender
          (record { amount = amount; expiration_ledger = expiration_ledger });
  }
  live_for ←
      if positive && not (leb e.sequence expiration_ledger)
      then err (host trap)
      else ok (expiration_ledger - e.sequence)
  ok s₁

unfoldable pub spend_allowance : Env → Token → Address → Address → ℤ → Result Token
unfolding read_allowance write_allowance
spend_allowance e s from spender amount = do
  let allowance = read_allowance e s from spender
  panic_if (ltb_ℤ allowance.amount amount) (token insufficient_allowance)
  elim (ltb_ℤ (pos 0) amount) [
    | true ↦ do
      rest ← fit_i128 (allowance.amount -ℤ amount)
      write_allowance e s from spender rest allowance.expiration_ledger
    | false ↦ ok s
  ]

unfoldable pub check_nonnegative_amount : ℤ → Result (Unit {0})
check_nonnegative_amount amount = panic_if (ltb_ℤ amount (pos 0)) (token negative_not_allowed)

module _ {P : Type 0} (client : PoolClient P) where
  unfoldable pub checkpoint_user_rewards : Env → Token → P → Address → Result P
  checkpoint_user_rewards e s p user = do
    pool_address ← get_role s.access Role.admin
    let call = client.checkpoint_reward e.current_contract user (as_u128 (read_balance s user)) p
    if user == pool_address then ok p else call

  unfoldable pub checkpoint_user_working_balance : Env → Token → P → Address → Result P
  checkpoint_user_working_balance e s p user = do
    pool_address ← get_role s.access Role.admin
    let call =
        client.checkpoint_working_balance e.current_contract user (as_u128 (read_balance s user)) p
    if user == pool_address then ok p else call
