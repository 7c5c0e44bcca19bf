-- ===== src/Concentrated/State.antt =====
-- liquidity_pool_concentrated/src/storage.rs and types.rs: what an initialized pool stores. A tick
-- spacing is positive, since `initialize` refuses others.
pub mod Places
use soroban_amm.Prelude.{
  ℕ, zero, suc, Bool, true, false, ◌&&◌, Option, none, some, List, [], ◌∷◌, ◌==◌, if◌then◌else◌,
}
use soroban_amm.Host.{Address, Result, ok, ◌>>=◌}
use soroban_amm.Host.Integer.{ℤ, pos}
use soroban_amm.Access.Store.{Access}
use soroban_amm.Stableswap.State.{get, set}
use soroban_amm.Concentrated.Ticks.{
  eqb_ℤ, compress_tick, chunk_address, min_tick, max_tick, ticks_per_chunk,
}

pub record Slot0 : Type 0 where
  pub sqrt_price_x96 : ℕ
  pub tick : ℤ

pub record PositionData : Type 0 where
  pub fee_growth_inside_0_last_x128 : ℕ
  pub fee_growth_inside_1_last_x128 : ℕ
  pub liquidity : ℕ
  pub tokens_owed_0 : ℕ
  pub tokens_owed_1 : ℕ

-- `TickInfo`, and `TickData`, which has the same fields in the same order.
pub record TickInfo : Type 0 where
  pub fee_growth_outside_0_x128 : ℕ
  pub fee_growth_outside_1_x128 : ℕ
  pub liquidity_gross : ℕ
  pub liquidity_net : ℤ

pub record ProtocolFees : Type 0 where
  pub token0 : ℕ
  pub token1 : ℕ

pub record PositionRange : Type 0 where
  pub tick_lower : ℤ
  pub tick_upper : ℤ

pub record UserState : Type 0 where
  pub positions : List PositionRange
  pub raw_liquidity : ℕ
  pub weighted_liquidity : ℕ

-- `DataKey`. A chunk or a position that is not stored is `none`, a word of a bitmap that is not
-- stored is zero, a user without a state has the default one.
pub record Pool : Type 0 where
  pub access : Access
  pub token0 : Address
  pub token1 : Address
  pub fee : ℕ
  pub tick_spacing : ℕ
  pub protocol_fee_fraction : ℕ
  pub slot0 : Slot0
  pub liquidity : ℕ
  pub fee_growth_global_0_x128 : ℕ
  pub fee_growth_global_1_x128 : ℕ
  pub protocol_fees : ProtocolFees
  pub reserve0 : ℕ
  pub reserve1 : ℕ
  pub min_init_tick : ℤ
  pub max_init_tick : ℤ
  pub total_raw_liquidity : ℕ
  pub total_weighted_liquidity : ℕ
  pub full_range_liquidity : ℕ
  pub is_killed_deposit : Bool
  pub is_killed_swap : Bool
  pub claim_killed : Bool
  pub tick_chunks : ℤ → Option (List TickInfo)
  pub chunk_bitmap : ℤ → ℕ
  pub word_bitmap : ℤ → ℕ
  pub positions : Address → ℤ → ℤ → Option PositionData
  pub users : Address → UserState

-- A map with another value at one key.
unfoldable pub put_at {ℓ} : {A : Type ℓ} → (ℤ → A) → ℤ → A → ℤ → A
put_at f k v j = if eqb_ℤ j k then v else f j

unfoldable pub same_range : Address → ℤ → ℤ → Address → ℤ → ℤ → Bool
same_range owner lower upper owner' lower' upper' =
    owner == owner' && eqb_ℤ lower lower' && eqb_ℤ upper upper'

-- `set_position`, and `remove_position` with `none`.
unfoldable pub put_position : Address → ℤ → ℤ → Option PositionData → Pool → Pool
put_position owner lower upper position p = record p {
  positions = λ owner' lower' upper'.
      if same_range owner' lower' upper' owner lower upper
      then position
      else p.positions owner' lower' upper';
}

unfoldable pub set_user_state : Address → UserState → Pool → Pool
set_user_state user state p = record p {
  users = λ user'. if user' == user then state else p.users user';
}

unfoldable pub set_tick_chunk : ℤ → List TickInfo → Pool → Pool
set_tick_chunk chunk_pos chunk p = record p {
  tick_chunks = put_at p.tick_chunks chunk_pos (some chunk);
}

abbrev pub empty_tick : TickInfo
empty_tick = record {
  fee_growth_outside_0_x128 = 0;
  fee_growth_outside_1_x128 = 0;
  liquidity_gross = 0;
  liquidity_net = pos 0;
}

unfoldable pub replicate : ℕ → List TickInfo
replicate zero = []
replicate (suc n) = empty_tick ∷ replicate n

unfoldable pub new_empty_chunk : List TickInfo
new_empty_chunk = replicate ticks_per_chunk

unfoldable pub or_empty_chunk : Option (List TickInfo) → List TickInfo
or_empty_chunk none = new_empty_chunk
or_empty_chunk (some chunk) = chunk

unfoldable pub get_or_create_tick_chunk : Pool → ℤ → List TickInfo
get_or_create_tick_chunk p chunk_pos = or_empty_chunk (p.tick_chunks chunk_pos)

-- `get_tick`, on the chunks of a pool or of a cache.
unfoldable pub tick_in : (ℤ → Option (List TickInfo)) → ℤ → ℕ → Result TickInfo
tick_in chunks tick spacing =
    let (chunk_pos, slot) = chunk_address (compress_tick tick spacing) in
    elim (chunks chunk_pos) [ some chunk ↦ get chunk slot | none ↦ ok empty_tick ]

unfoldable pub get_tick : Pool → ℤ → ℕ → Result TickInfo
get_tick p tick spacing = tick_in p.tick_chunks tick spacing

-- The end of the functions that write a tick into its chunk.
unfoldable pub write_tick : Pool → ℤ → ℕ → TickInfo → Result Pool
write_tick p tick spacing info = do
  let (chunk_pos, slot) = chunk_address (compress_tick tick spacing)
  chunk ← set (get_or_create_tick_chunk p chunk_pos) slot info
  ok (set_tick_chunk chunk_pos chunk p)
