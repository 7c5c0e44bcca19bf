-- ===== src/Lib.antt =====
-- AquaToken's automated market maker for Soroban (a workspace of Rust contracts), modelled where its
-- own logic is. Paths are from the repository's root.
--
-- The parts and how they interact:
--  * Host: what all contracts share: the error enums, failure as a value (a panic rolls the whole
--    call back, so an error carries no state), the ledger's environment, checked integers. `Math`
--    holds the arithmetic that comes from outside (`soroban_fixed_point_math` and the host's 256-bit
--    integers) with its documented rounding and overflow; every theorem holds for each
--    implementation of it. Host/Exact is one, for tests.
--  * Utils: utils/src/u256_math.rs. The loop of `sqrt` runs on one turn of fuel more than its
--    argument, which is enough since each guess is smaller than the one before.
--  * Access: access_control/src. Access/Roles has the roles and the storage keys, Access/Store the
--    role management and the guards, Access/Transfer the delayed transfers of ownership, and
--    Access/Handlers the entry points that each contract exports over them. A store is a function
--    from keys.
--  * Upgrade: upgrade/src, the delayed upgrade of a contract's code.
--  * Token: token/src, the share token. It calls its pool before and after each change of a
--    balance; the pool is the parameter `PoolClient` over a state of its own.
--  * Pool: liquidity_pool/src, the constant product pool, with token_share/src for its shares.
--    Pool/Formulas has the formulas of pool.rs; Pool/State what is stored, `Outside` (the calls of
--    tokens, rewards, gauges and the plane over their joint state) and `_sync_reserves`; Pool/Swap,
--    Pool/Liquidity and Pool/Admin the entry points, with parts of them that two entry points repeat
--    or that are long as functions of their own (`take_in` and `pay_out` end both swaps, `credit`
--    ends a deposit, `redeem` a withdrawal). Pool/Ledger says what is relied on of the tokens.
--  * Stableswap: liquidity_pool_stableswap/src, the pool of several tokens of about the same price.
--    Stableswap/State has the storage and the amounts at one precision, Ramp the amplification
--    coefficient, Fee the delayed fee, Invariant and Solve the iterations `_get_d`, `_get_y` and
--    `_get_y_d`, Reserves the sync and the protocol's fees, Swap, Withdraw, Imbalance and Deposit the
--    entry points, Admin the switches. It calls the same `Outside` as Pool, and its plane by a
--    parameter of its own. Its loops of 255 turns are loops on that many turns of fuel, with the
--    source's error at the end; those over the tokens follow the lists.
--  * Concentrated: liquidity_pool_concentrated/src, the pool with positions on ranges of ticks. U512
--    has u512.rs, Math math.rs (Math/Ratios the conversion between ticks and prices), Ticks the
--    arithmetic of tick indexes and chunks, Bitmap bitmap.rs, State storage.rs and types.rs. Of
--    contract/internal.rs, Step has one step of a swap, Search the search for the next tick,
--    Liquidity what a position adds to the ticks and the user's ranges, Fees the growth of fees,
--    Swap the loop, Weight the weights for rewards, with rewards/src/concentrated_weight.rs, and
--    Settle what a swap books. Positions and Settle also have the entry points, Admin those of the
--    administration. Tick indexes are integers in the bounds of the pool, so that sums of them do
--    not overflow. The cache of chunks is a part of the loop's state, shared by its searches and
--    crossings and written back at its end: Search/Coherent compares its reads with what `flush`
--    stores, Fees/Uses has the states that one cache goes through, and Swap/Shared the loop among
--    them. The loop has turns of fuel, and its theorems are about every state it reaches. It calls the same
--    `Outside` as Pool.
--  * Gauge: rewards_gauge/src, the rewards of a pool's holders: Gauge/State has the storage, the
--    checkpoints and the entry points, over a token's transfer as a parameter.
--  * ProviderFee: liquidity_pool_provider_swap_fee/src, swaps through the router, a parameter here,
--    with a fee for the provider of the interface.
--  * Plane: liquidity_pool_plane/src, the store of the pools' snapshots, which Plane/Snapshots
--    compares with a function. LockerFeed: locker_feed/src, the supply that the rewards read. FeesCollector: fees_collector/src. All three export the
--    handlers of Access/Handlers and Upgrade/Handlers over their own records.
--
-- Numbers are natural numbers with the width of each Rust integer checked where it is computed; the
-- balances and amounts of the token are integers in the range of `i128`. Addresses and code hashes are
-- numbers, since they are only stored and compared. Events, storage rent and the deployment of
-- contracts change nothing that the contracts read, and are left out.
--
-- Not modelled: of the constant product, the stableswap and the concentrated pool the
-- initialization and the entry points for rewards, of the latter two the upgrades; the views that
-- only read a field; the router, the calculator on the plane, the rewards manager and a pool's map of
-- gauges, the factory of fee contracts, the configuration contracts; of the gauge its constructor,
-- its views and its upgrade.
pub mod Prelude
pub mod Host
pub mod Utils
pub mod Access
pub mod Upgrade
pub mod Token
pub mod Pool
pub mod Gauge
pub mod Concentrated
pub mod Stableswap
pub mod ProviderFee
pub mod Plane
pub mod LockerFeed
pub mod FeesCollector
