-- ===== src/Pool/Tests.antt =====
-- A pool with balances in a table, and the theorems at it.
pub mod Balances
mod Trades
mod Deposits
