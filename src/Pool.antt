-- ===== src/Pool.antt =====
-- liquidity_pool/src: the constant product pool.
pub mod Formulas
pub mod State
pub mod Swap
pub mod Liquidity
pub mod Admin
pub mod Quotes
pub mod Product
pub mod Ledger
pub mod Inversion
pub mod Shares
pub mod Switches
pub mod Solvency
pub mod Tests
