-- ===== src/Token/Calls.antt =====
-- The entry points of the token that change its state, as one step.
use Prim.Native.String.{String}
use soroban_amm.Prelude.{ℕ}
use soroban_amm.Host.{Address, Env, Result, ok, ◌>>=◌}
use soroban_amm.Host.Integer.{ℤ, pos, ◌-ℤ◌}
use soroban_amm.Access.Roles.{Symbol}
use soroban_amm.Access.Handlers
use soroban_amm.Token.State.{Token, PoolClient}
use soroban_amm.Token.Contract.{
  initialize, mint, approve, transfer, transfer_from, burn, burn_from, upgrade,
}

-- The calls of the entry points that change the state.
pub data Call : Type 0 where
  initialize_call : Address → ℕ → String → String → Call
  mint_call : Address → ℤ → Call
  approve_call : Address → Address → ℤ → ℕ → Call
  transfer_call : Address → Address → ℤ → Call
  transfer_from_call : Address → Address → Address → ℤ → Call
  burn_call : Address → ℤ → Call
  burn_from_call : Address → Address → ℤ → Call
  upgrade_call : Address → ℕ → Call
  commit_call : Address → Symbol → Address → Call
  apply_call revert_call : Address → Symbol → Call

abbrev pub with_pool : {P : Type 0} → P → Result Token → Result (Token × P)
with_pool p r = r >>= λ s. ok (s, p)

-- One invocation of the contract.
unfoldable pub invoke : {P : Type 0} → PoolClient P → Env → Token × P → Call → Result (Token × P)
invoke client e (s, p) (initialize_call a d n y) = with_pool p (initialize s a d n y)
invoke client e (s, p) (mint_call to x) = with_pool p (mint e s to x)
invoke client e (s, p) (approve_call f sp x l) = with_pool p (approve e s f sp x l)
invoke client e st (transfer_call f t x) = transfer client e st f t x
invoke client e st (transfer_from_call sp f t x) = transfer_from client e st sp f t x
invoke client e (s, p) (burn_call f x) = with_pool p (burn e s f x)
invoke client e (s, p) (burn_from_call sp f x) = with_pool p (burn_from e s sp f x)
invoke client e (s, p) (upgrade_call a w) = with_pool p (upgrade e s a w)
invoke client e (s, p) (commit_call a r n) =
    Handlers.commit_transfer_ownership e s.access a r n >>= λ x. ok (record s { access = x }, p)
invoke client e (s, p) (apply_call a r) =
    Handlers.apply_transfer_ownership e s.access a r >>= λ x. ok (record s { access = x }, p)
invoke client e (s, p) (revert_call a r) =
    Handlers.revert_transfer_ownership e s.access a r >>= λ x. ok (record s { access = x }, p)

-- What a call adds to the supply.
abbrev pub minted : Call → ℤ
minted (mint_call to x) = x
minted (burn_call f x) = pos 0 -ℤ x
minted (burn_from_call sp f x) = pos 0 -ℤ x
minted _ = pos 0
