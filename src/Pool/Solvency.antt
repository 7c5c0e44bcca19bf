-- ===== src/Pool/Solvency.antt =====
-- The pool's books are covered by what it holds: each reserve and what is owed to the protocol.
mod Trades
pub use Trades.*
mod Deposits
pub use Deposits.*
mod Fees
pub use Fees.*
