-- ===== src/Stableswap.antt =====
-- liquidity_pool_stableswap/src: the pool of several tokens of about the same price.
pub mod State
pub mod Ramp
pub mod Fee
pub mod Invariant
pub mod Solve
pub mod Reserves
pub mod Swap
pub mod Withdraw
pub mod Lookup
pub mod Solvency
mod Tests
pub mod Deposit
pub mod Admin
pub mod Imbalance
