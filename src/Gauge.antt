-- ===== src/Gauge.antt =====
-- rewards_gauge/src: rewards that accrue to the holders of a pool's shares.
pub mod State
pub mod Covered
mod Tests
