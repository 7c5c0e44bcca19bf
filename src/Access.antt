-- ===== src/Access.antt =====
-- access_control/src: roles and who holds them, the delayed transfer of ownership, emergency mode.
-- Every contract of the workspace that has an administrator embeds this state.
pub mod Roles
pub mod Store
pub mod Transfer
pub mod Handlers
pub mod Symbols
pub mod Delay
pub mod Guards
pub mod Lifecycle
mod Tests
