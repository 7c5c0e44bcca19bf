-- ===== src/Pool/State.antt =====
-- liquidity_pool/src/storage.rs and `_sync_reserves`: what an initialized pool stores, the contracts
-- that it calls, and the reserves brought up to the balances.
use soroban_amm.Prelude.{
  ℕ, ◌+◌, Bool, true, false, Option, none, some, List, [], ◌∷◌, ltb, ◌==◌, if◌then◌else◌,
}
use soroban_amm.Host.{
  Address, Env, Result, ok, err, ◌>>=◌, validation, wrong_input_vec_size, fit, sub_checked,
}
use soroban_amm.Host.Integer.{ℤ, as_i128, as_u128}
use soroban_amm.Access.Store.{Access}
use soroban_amm.Upgrade.{Code, Hash}

-- `DataKey`. `total_shares` and `token_share` are of token_share/src/lib.rs.
pub record Pool : Type 0 where
  pub access : Access
  pub code : Code
  pub token_future_wasm : Option Hash
  pub gauge_future_wasm : Option Hash
  pub token_a : Address
  pub token_b : Address
  pub token_share : Address
  pub total_shares : ℕ
  pub reserve_a : ℕ
  pub reserve_b : ℕ
  pub fee_fraction : ℕ
  pub protocol_fee_fraction : ℕ
  pub protocol_fee_a : ℕ
  pub protocol_fee_b : ℕ
  pub is_killed_swap : Bool
  pub is_killed_deposit : Bool
  pub is_killed_claim : Bool
  pub reserves_sync_ledger : ℕ
  pub router : Address
  pub plane : Address

-- The contracts and crates that the pool calls, over their joint state `S`: the tokens (SEP-41, the
-- share token among them), the rewards manager with the reward gauges, and the plane. A transfer is
-- from its first address to its second; each call may fail.
pub record Outside (S : Type 0) : Type 0 where
  pub balance : Address → Address → S → ℕ
  pub transfer : Address → Address → Address → ℤ → S → Result S
  pub mint : Address → Address → ℤ → S → Result S
  pub burn : Address → Address → ℤ → S → Result S
  pub reward_token : S → Option Address
  pub get_working_balance : Address → ℕ → S → Result ℕ
  pub get_working_supply : ℕ → S → Result ℕ
  pub gauges_checkpoint_user : Address → ℕ → ℕ → S → Result S
  pub checkpoint_user : Address → ℕ → ℕ → S → Result S
  pub update_working_balance : Address → ℕ → ℕ → S → Result S
  pub update_plane : Pool → S → Result S

-- A vector that must hold two amounts.
unfoldable pub two : List ℕ → Result (ℕ × ℕ)
two (a ∷ b ∷ []) = ok (a, b)
two _ = err (validation wrong_input_vec_size)

-- `Some(token) == reward_token`
abbrev pub is_reward_token : Option Address → Address → Bool
is_reward_token (some r) token = token == r
is_reward_token none token = false

module _ {S : Type 0} (o : Outside S) where
  -- The turn of the loop of `_sync_reserves` for one token: its reserve after the sync.
  unfoldable pub sync_reserve : Env → Address → ℕ → ℕ → S → Result ℕ
  sync_reserve e token reserve protocol_fee s = elim (is_reward_token (o.reward_token s) token) [
    | true ↦ ok reserve
    | false ↦ do
      available ← sub_checked (o.balance token e.current_contract s) protocol_fee
      ok (if ltb reserve available then available else reserve)
  ]

  -- `LiquidityPool::_sync_reserves`
  unfoldable pub sync_reserves : Env → Pool → S → Result Pool
  unfolding sync_reserve
  sync_reserves e p s = elim (p.reserves_sync_ledger == e.sequence) [
    | true ↦ ok p
    | false ↦ elim (p.total_shares == 0) [
      | true ↦ ok (record p { reserves_sync_ledger = e.sequence })
      | false ↦ do
        reserve_a ← sync_reserve e p.token_a p.reserve_a p.protocol_fee_a s
        reserve_b ← sync_reserve e p.token_b p.reserve_b p.protocol_fee_b s
        ok (record p {
          reserve_a = reserve_a;
          reserve_b = reserve_b;
          reserves_sync_ledger = e.sequence;
        })
    ]
  ]

  -- token_share/src/lib.rs
  unfoldable pub mint_shares : Pool → Address → ℤ → S → Result (Pool × S)
  mint_shares p to amount s = do
    total ← fit 128 (p.total_shares + as_u128 amount)
    s' ← o.mint p.token_share to amount s
    ok (record p { total_shares = total }, s')

  unfoldable pub burn_shares : Pool → Address → ℕ → S → Result (Pool × S)
  burn_shares p from amount s = do
    total ← sub_checked p.total_shares amount
    s' ← o.burn p.token_share from (as_i128 amount) s
    ok (record p { total_shares = total }, s')

  abbrev pub get_user_balance_shares : Pool → Address → S → ℕ
  get_user_balance_shares p user s = o.balance p.token_share user s
