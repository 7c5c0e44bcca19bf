-- ===== src/Concentrated.antt =====
-- liquidity_pool_concentrated/src: the concentrated pool.
pub mod U512
pub mod Math
pub mod Step
pub mod Ticks
pub mod Bitmap
pub mod State
pub mod Search
pub mod Liquidity
pub mod Fees
pub mod Swap
pub mod Weight
pub mod Positions
pub mod Settle
pub mod Admin
mod Tests
