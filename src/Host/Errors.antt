-- ===== src/Host/Errors.antt =====
-- The error enums of the crates, and results: `panic_with_error!` and traps as values.
use soroban_amm.Prelude.{Bool, true, false, Option, none, some}

-- Traps of the host: arithmetic overflow, `unwrap` of `None`, a failed call, a missing
-- authorization. `no_fuel` is no error of the program: a loop of the model ran out of its fuel.
pub data HostError : Type 0 where
  trap auth_failed no_fuel : HostError

-- access_control/src/errors.rs
pub data AccessControlError : Type 0 where
  role_not_found unauthorized admin_already_set bad_role_usage : AccessControlError
  another_action_active no_action_active action_not_ready_yet : AccessControlError

-- upgrade/src/errors.rs
pub data UpgradeError : Type 0 where
  another_action_active no_action_active action_not_ready_yet : UpgradeError

-- utils/src/storage_errors.rs
pub data StorageError : Type 0 where
  already_initialized value_not_initialized value_missing value_conversion_error : StorageError

-- token/src/errors.rs
pub data TokenError : Type 0 where
  already_initialized insufficient_balance insufficient_allowance : TokenError
  negative_not_allowed decimal_too_large past_time_not_allowed : TokenError

-- liquidity_pool/src/errors.rs
pub data LiquidityPoolError : Type 0 where
  already_initialized plane_already_initialized rewards_already_initialized : LiquidityPoolError
  invariant_does_not_hold pool_deposit_killed pool_swap_killed : LiquidityPoolError
  pool_claim_killed future_share_id_not_set : LiquidityPoolError

-- locker_feed/src/errors.rs
pub data FeedError : Type 0 where
  already_initialized : FeedError

-- liquidity_pool_validation_errors/src/lib.rs
pub data ValidationError : Type 0 where
  wrong_input_vec_size fee_out_of_bounds all_coins_required in_min_not_satisfied : ValidationError
  out_min_not_satisfied cannot_swap_same_token in_token_out_of_bounds : ValidationError
  out_token_out_of_bounds empty_pool invalid_deposit_amount : ValidationError
  admin_fee_out_of_bounds unknown_pool_type zero_shares_burned : ValidationError
  too_many_shares_burned cannot_compare_pools zero_amount insufficient_balance : ValidationError
  in_max_not_satisfied : ValidationError

-- rewards_gauge/src/errors.rs
pub data GaugeError : Type 0 where
  unauthorized already_initialized invalid_config config_not_expired_yet : GaugeError
  start_not_in_future start_too_early too_many_configs invalid_reward_state : GaugeError

-- liquidity_pool_stableswap/src/errors.rs
pub data StableswapError : Type 0 where
  already_initialized plane_already_initialized rewards_already_initialized : StableswapError
  invariant_does_not_hold pool_deposit_killed pool_swap_killed : StableswapError
  pool_claim_killed future_share_id_not_set max_iterations_reached : StableswapError
  zero_token_not_allowed ramp_too_early ramp_time_less_than_minimum : StableswapError
  ramp_over_max ramp_too_fast another_action_active no_action_active : StableswapError
  action_not_ready_yet : StableswapError

-- liquidity_pool_provider_swap_fee/src/errors.rs
pub data ProviderFeeError : Type 0 where
  unauthorized path_is_empty out_min_not_satisfied in_max_not_satisfied : ProviderFeeError
  fee_fraction_too_high : ProviderFeeError

-- liquidity_pool_concentrated/src/errors.rs
pub data ConcentratedPoolError : Type 0 where
  unauthorized pool_already_initialized plane_already_initialized : ConcentratedPoolError
  rewards_already_initialized deposit_killed swap_killed claim_killed : ConcentratedPoolError
  tokens_not_sorted invalid_tick_range invalid_amount invalid_sqrt_price : ConcentratedPoolError
  invalid_tick_spacing tick_out_of_bounds price_out_of_bounds : ConcentratedPoolError
  tick_not_spaced_correctly tick_lower_not_less_than_upper : ConcentratedPoolError
  tick_lower_too_low tick_upper_too_high invalid_price_limit : ConcentratedPoolError
  position_not_found too_many_positions liquidity_amount_too_large : ConcentratedPoolError
  insufficient_liquidity liquidity_overflow liquidity_underflow : ConcentratedPoolError

pub data Error : Type 0 where
  host : HostError → Error
  access : AccessControlError → Error
  upgrade : UpgradeError → Error
  storage : StorageError → Error
  token : TokenError → Error
  pool : LiquidityPoolError → Error
  validation : ValidationError → Error
  gauge : GaugeError → Error
  stableswap : StableswapError → Error
  provider_fee : ProviderFeeError → Error
  feed : FeedError → Error
  concentrated : ConcentratedPoolError → Error

pub data Result {ℓ} (A : Type ℓ) : Type ℓ where
  ok : A → Result A
  err : Error → Result A

-- `if test { panic }`.
abbrev pub panic_if : Bool → Error → Result (Unit {0})
panic_if true e = err e
panic_if false e = ok tt

-- `match option { Some(v) => v, None => panic }`.
abbrev pub or_panic {ℓ} : {A : Type ℓ} → Option A → Error → Result A
or_panic (some a) e = ok a
or_panic none e = err e

-- The next call runs on what the first returned; a panic ends the chain.
infixl 5 ◌>>=◌
abbrev pub ◌>>=◌ {ℓ κ} : {X : Type ℓ} {Y : Type κ} → Result X → (X → Result Y) → Result Y
err e >>= next = err e
ok x >>= next = next x

-- `if !test { panic }`.
abbrev pub guard : Bool → Error → Result (Unit {0})
guard true e = ok tt
guard false e = err e

infixl 5 ◌>>◌
abbrev pub ◌>>◌ {ℓ} : {Y : Type ℓ} → Result (Unit {0}) → Result Y → Result Y
call >> next = call >>= λ _. next
