-- ===== src/Concentrated/Tests/Pool.antt =====
-- A pool with liquidity between two ticks, made by the operations of the model.
use soroban_amm.Prelude.{ℕ, ◌-◌, ◌^◌, true, false, none, []}
use soroban_amm.Host.{Result, ok, err}
use soroban_amm.Host.Exact.{exact}
use soroban_amm.Host.Integer.{pos, negsuc}
use soroban_amm.Pool.Tests.Balances.{access}
use soroban_amm.Concentrated.State.{Pool}
use soroban_amm.Concentrated.Liquidity.{update_tick_liquidity}

abbrev pub or_else {ℓ} : {A : Type ℓ} → Result A → A → A
or_else (ok a) d = a
or_else (err e) d = d

abbrev pub one : ℕ
one = 2 ^ 96

abbrev pub empty_pool : Pool
empty_pool = record {
  access = access;
  token0 = 1;
  token1 = 2;
  fee = 30;
  tick_spacing = 60;
  protocol_fee_fraction = 5000;
  slot0 = record { sqrt_price_x96 = one; tick = pos 0 };
  liquidity = 1000000000000;
  fee_growth_global_0_x128 = 2 ^ 256 - 1;
  fee_growth_global_1_x128 = 12345;
  protocol_fees = record { token0 = 0; token1 = 0 };
  reserve0 = 6000000000;
  reserve1 = 6000000000;
  min_init_tick = pos 887272;
  max_init_tick = negsuc 887271;
  total_raw_liquidity = 1000000000000;
  total_weighted_liquidity = 1000000000000;
  full_range_liquidity = 0;
  is_killed_deposit = false;
  is_killed_swap = false;
  claim_killed = false;
  tick_chunks = λ k. none;
  chunk_bitmap = λ k. 0;
  word_bitmap = λ k. 0;
  positions = λ owner lower upper. none;
  users = λ user. record { positions = []; raw_liquidity = 0; weighted_liquidity = 0 };
}

abbrev pub with_lower : Pool
with_lower =
    or_else (update_tick_liquidity ⦃m = exact⦄ (negsuc 119) (pos 1000000000000) false empty_pool)
      empty_pool

abbrev pub some_pool : Pool
some_pool =
    or_else (update_tick_liquidity ⦃m = exact⦄ (pos 120) (pos 1000000000000) true with_lower)
      with_lower
