-- ===== src/ProviderFee.antt =====
-- liquidity_pool_provider_swap_fee/src/contract.rs: swaps through the router for a provider's fee. The
-- entries that authorize the router's transfer change nothing that is stored.
use soroban_amm.Prelude.{ℕ, not, Option, none, some, List, [], ◌∷◌, ltb, ◌==◌, if◌then◌else◌}
use soroban_amm.Host.{
  Address, Env, Math, Result, ok, ◌>>=◌, ◌>>◌, panic_if, or_panic, require_auth, provider_fee,
  ProviderFeeError, sub_checked,
}
use soroban_amm.Host.Integer.{ℤ, pos, ◌-ℤ◌, ltb_ℤ, fit_i128, as_i128}
use soroban_amm.Upgrade.{Hash}

-- `DataKey`
pub record ProviderFee : Type 0 where
  pub router : Address
  pub operator : Address
  pub fee_destination : Address
  pub max_swap_fee_fraction : ℕ
  pub fee_denominator : ℕ

-- A step of a chain of swaps: the tokens of a pool, its index, and the token bought.
abbrev pub Hop : Type 0
Hop = List Address × Hash × Address

-- `swaps_chain.last()`, as its token.
unfoldable pub last_token : List Hop → Option Address
last_token [] = none
last_token (hop ∷ []) = some hop.2
last_token (hop ∷ (hop' ∷ hops)) = last_token (hop' ∷ hops)

-- The tokens and the router over their joint state. The balances are those of SEP-41 tokens, never
-- negative; the router's calls name the router, the payer, the chain, the token and two amounts.
pub record Calls (S : Type 0) : Type 0 where
  pub balance : Address → Address → S → ℕ
  pub transfer : Address → Address → Address → ℤ → S → Result S
  pub swap_chained : Address → Address → List Hop → Address → ℕ → ℕ → S → Result (ℕ × S)
  pub swap_chained_strict_receive :
      Address → Address → List Hop → Address → ℕ → ℕ → S → Result (ℕ × S)

-- `__constructor`
unfoldable pub new_collector : Address → Address → Address → ℕ → ℕ → ProviderFee
new_collector router operator fee_destination max_swap_fee_fraction fee_denominator = record {
  router = router;
  operator = operator;
  fee_destination = fee_destination;
  max_swap_fee_fraction = max_swap_fee_fraction;
  fee_denominator = fee_denominator;
}

module _ {S : Type 0} (o : Calls S) where
  unfoldable pub claim_fees : Env → ProviderFee → Address → Address → S → Result (ℕ × S)
  claim_fees e p operator token s = do
    require_auth e operator
    panic_if (not (operator == p.operator)) (provider_fee ProviderFeeError.unauthorized)
    let amount = o.balance token e.current_contract s
    s' ← o.transfer token e.current_contract p.fee_destination (pos amount) s
    ok (amount, s')

  unfoldable pub claim_fees_and_swap :
      Env → ProviderFee → Address → List Hop → Address → ℕ → S → Result (ℕ × S)
  unfolding last_token
  claim_fees_and_swap e p operator swaps_chain token out_min s = do
    require_auth e operator
    panic_if (not (operator == p.operator)) (provider_fee ProviderFeeError.unauthorized)
    token_out ← or_panic (last_token swaps_chain) (provider_fee ProviderFeeError.path_is_empty)
    let amount = o.balance token e.current_contract s
    swapped ← o.swap_chained p.router e.current_contract swaps_chain token amount out_min s
    s' ← o.transfer token_out e.current_contract p.fee_destination (as_i128 swapped.0) swapped.1
    ok (swapped.0, s')

  module _ ⦃m : Math⦄ where
    unfoldable pub swap_chained :
        Env → ProviderFee → Address → List Hop → Address → ℕ → ℕ → ℕ → S → Result (ℕ × S)
    unfolding last_token
    swap_chained e p user swaps_chain token_in in_amount out_min fee_fraction s = do
      require_auth e user
      panic_if (ltb p.max_swap_fee_fraction fee_fraction)
          (provider_fee ProviderFeeError.fee_fraction_too_high)
      token_out ← or_panic (last_token swaps_chain) (provider_fee ProviderFeeError.path_is_empty)
      s₁ ← o.transfer token_in user e.current_contract (as_i128 in_amount) s
      swapped ← o.swap_chained p.router e.current_contract swaps_chain token_in in_amount out_min s₁
      let amount_out = swapped.0
      fee_amount ← m.fixed_mul_ceil amount_out fee_fraction p.fee_denominator
      amount_out_w_fee ← sub_checked amount_out fee_amount
      panic_if (ltb amount_out_w_fee out_min) (provider_fee ProviderFeeError.out_min_not_satisfied)
      s₂ ← o.transfer token_out e.current_contract user (as_i128 amount_out_w_fee) swapped.1
      ok (amount_out_w_fee, s₂)

    -- The end of `swap_chained_strict_receive`: what the contract received of the input token above
    -- `kept` is returned.
    unfoldable pub refund_rest : Env → Address → Address → ℕ → ℤ → S → Result S
    refund_rest e user token_in balance_before kept s = do
      let balance_after = o.balance token_in e.current_contract s
      gained ← fit_i128 (pos balance_after -ℤ pos balance_before)
      refund ← fit_i128 (gained -ℤ kept)
      let call = o.transfer token_in e.current_contract user refund s
      if ltb_ℤ (pos 0) refund then call else ok s

    unfoldable pub swap_chained_strict_receive :
        Env → ProviderFee → Address → List Hop → Address → ℕ → ℕ → ℕ → S → Result (ℕ × S)
    unfolding last_token
    swap_chained_strict_receive e p user swaps_chain token_in out_amount in_max fee_fraction s = do
      require_auth e user
      panic_if (ltb p.max_swap_fee_fraction fee_fraction)
          (provider_fee ProviderFeeError.fee_fraction_too_high)
      rest ← sub_checked p.fee_denominator fee_fraction
      gross_out ← m.fixed_mul_ceil out_amount p.fee_denominator rest
      token_out ← or_panic (last_token swaps_chain) (provider_fee ProviderFeeError.path_is_empty)
      let balance_before = o.balance token_in e.current_contract s
      s₁ ← o.transfer token_in user e.current_contract (as_i128 in_max) s
      swapped ←
          o.swap_chained_strict_receive p.router e.current_contract swaps_chain token_in gross_out
            in_max s₁
      s₂ ← o.transfer token_out e.current_contract user (as_i128 out_amount) swapped.1
      fee ← sub_checked gross_out out_amount
      s₃ ←
          refund_rest e user token_in balance_before
            (if token_in == token_out then as_i128 fee else pos 0) s₂
      ok (swapped.0, s₃)
