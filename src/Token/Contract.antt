-- ===== src/Token/Contract.antt =====
-- token/src/contract.rs: the entry points.
use Prim.Native.String.{String}
use soroban_amm.Prelude.{ℕ, some, ltb}
use soroban_amm.Host.{
  Address, Env, Result, ok, ◌>>=◌, ◌>>◌, panic_if, or_panic, require_auth, token, host, trap,
  TokenError, decimal_too_large,
}
use soroban_amm.Host.Integer.{ℤ}
use soroban_amm.Access.Roles.{Role}
use soroban_amm.Access.Store.{
  get_role_safe, get_role, set_role_address, assert_address_has_role, is_some,
}
use soroban_amm.Token.State.{
  Token, Metadata, PoolClient, read_balance, receive_balance, spend_balance, read_allowance,
  write_allowance, spend_allowance, check_nonnegative_amount, checkpoint_user_rewards,
  checkpoint_user_working_balance,
}

unfoldable pub initialize : Token → Address → ℕ → String → String → Result Token
initialize s admin decimal name symbol = do
  current ← get_role_safe s.access Role.admin
  panic_if (is_some current) (token TokenError.already_initialized)
  access ← set_role_address s.access Role.admin admin
  panic_if (ltb 255 decimal) (token decimal_too_large)
  ok (record s {
    access = access;
    metadata = some (record { decimal = decimal; name = name; symbol = symbol });
  })

unfoldable pub mint : Env → Token → Address → ℤ → Result Token
mint e s to amount = do
  check_nonnegative_amount amount
  admin ← get_role s.access Role.admin
  require_auth e admin
  receive_balance s to amount

unfoldable pub allowance : Env → Token → Address → Address → ℤ
allowance e s from spender = (read_allowance e s from spender).amount

unfoldable pub approve : Env → Token → Address → Address → ℤ → ℕ → Result Token
approve e s from spender amount expiration_ledger = do
  require_auth e from
  check_nonnegative_amount amount
  write_allowance e s from spender amount expiration_ledger

unfoldable pub balance : Token → Address → ℤ
balance s id = read_balance s id

unfoldable pub burn : Env → Token → Address → ℤ → Result Token
burn e s from amount = do
  require_auth e from
  check_nonnegative_amount amount
  spend_balance s from amount

unfoldable pub burn_from : Env → Token → Address → Address → ℤ → Result Token
burn_from e s spender from amount = do
  require_auth e spender
  check_nonnegative_amount amount
  s₁ ← spend_allowance e s from spender amount
  spend_balance s₁ from amount

unfoldable pub metadata : Token → Result Metadata
metadata s = or_panic s.metadata (host trap)

unfoldable pub upgrade : Env → Token → Address → ℕ → Result Token
upgrade e s admin new_wasm_hash = do
  require_auth e admin
  assert_address_has_role s.access admin Role.admin
  ok (record s { wasm = new_wasm_hash })

-- `spend_balance(from)` and then `receive_balance(to)`, the body shared by the two transfers.
unfoldable pub move_balance : Token → Address → Address → ℤ → Result Token
move_balance s from to amount = do receive_balance (← spend_balance s from amount) to amount

module _ {P : Type 0} (client : PoolClient P) where
  unfoldable pub transfer : Env → Token × P → Address → Address → ℤ → Result (Token × P)
  transfer e (s, p) from to amount = do
    require_auth e from
    check_nonnegative_amount amount
    p₁ ← checkpoint_user_rewards client e s p from
    p₂ ← checkpoint_user_rewards client e s p₁ to
    s' ← move_balance s from to amount
    p₃ ← checkpoint_user_working_balance client e s' p₂ from
    p₄ ← checkpoint_user_working_balance client e s' p₃ to
    ok (s', p₄)

  unfoldable pub transfer_from :
      Env → Token × P → Address → Address → Address → ℤ → Result (Token × P)
  transfer_from e (s, p) spender from to amount = do
    require_auth e spender
    check_nonnegative_amount amount
    p₁ ← checkpoint_user_rewards client e s p from
    p₂ ← checkpoint_user_rewards client e s p₁ to
    s₁ ← spend_allowance e s from spender amount
    s' ← move_balance s₁ from to amount
    p₃ ← checkpoint_user_working_balance client e s' p₂ from
    p₄ ← checkpoint_user_working_balance client e s' p₃ to
    ok (s', p₄)
