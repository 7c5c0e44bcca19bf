-- ===== src/Token.antt =====
-- token/src: the pool share token, a SEP-41 token whose transfers tell the pool to checkpoint the
-- rewards of both sides.
pub mod State
pub mod Contract
pub mod Inversion
pub mod Calls
pub mod Supply
pub mod Total
pub mod Allowance
pub mod Moves
mod Tests
