-- ===== src/Stableswap/Reserves.antt =====
-- liquidity_pool_stableswap/src/contract.rs: `_sync_reserves` and the claim of the protocol's fees.
use soroban_amm.Prelude.{ℕ, ◌==◌, true, false, List, [], ◌∷◌, if◌then◌else◌}
use soroban_amm.Host.{Address, Env, Result, ok, err, ◌>>=◌, ◌>>◌, host, trap, require_auth}
use soroban_amm.Host.Integer.{as_i128}
use soroban_amm.Access.Store.{require_system_fee_admin_or_owner}
use soroban_amm.Pool.State.{Outside, sync_reserve}
use soroban_amm.Stableswap.State.{Stable}

module _ {S : Type 0} (o : Outside S) where
  -- The loop over `tokens.zip(reserves).zip(protocol_fees)`.
  unfoldable pub sync_all : Env → List Address → List ℕ → List ℕ → S → Result (List ℕ)
  sync_all e (token ∷ tokens) (reserve ∷ reserves) (protocol_fee ∷ protocol_fees) s = do
    reserve' ← sync_reserve o e token reserve protocol_fee s
    rest ← sync_all e tokens reserves protocol_fees s
    ok (reserve' ∷ rest)
  sync_all e _ reserves _ s = ok reserves

  -- `LiquidityPool::_sync_reserves`
  unfoldable pub sync_reserves : Env → Stable → S → Result Stable
  unfolding sync_all
  sync_reserves e p s = elim (p.reserves_sync_ledger == e.sequence) [
    | true ↦ ok p
    | false ↦ elim (p.total_shares == 0) [
      | true ↦ ok (record p { reserves_sync_ledger = e.sequence })
      | false ↦ do
        reserves ← sync_all e p.tokens p.reserves p.protocol_fees s
        ok (record p { reserves = reserves; reserves_sync_ledger = e.sequence })
    ]
  ]

  -- The loop of `claim_protocol_fees`: each fee above 0 is paid and reset.
  unfoldable pub pay_all : Env → Address → List Address → List ℕ → S → Result (List ℕ × S)
  pay_all e destination [] fees s = ok (fees, s)
  pay_all e destination (token ∷ tokens) [] s = err (host trap)
  pay_all e destination (token ∷ tokens) (fee ∷ fees) s = do
    let call = o.transfer token e.current_contract destination (as_i128 fee) s
    s₁ ← if fee == 0 then ok s else call
    rest ← pay_all e destination tokens fees s₁
    ok (0 ∷ rest.0, rest.1)

  unfoldable pub claim_protocol_fees :
      Env → Stable × S → Address → Address → Result (List ℕ × (Stable × S))
  unfolding require_system_fee_admin_or_owner pay_all
  claim_protocol_fees e (p, s) admin destination = do
    require_auth e admin
    require_system_fee_admin_or_owner p.access admin
    paid ← pay_all e destination p.tokens p.protocol_fees s
    ok (p.protocol_fees, (record p { protocol_fees = paid.0 }, paid.1))
