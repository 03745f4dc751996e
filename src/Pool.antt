-- ===== src/Pool.antt =====
-- internal/outbound/pool: the state of a node that all pools share.
pub mod Shared
pub mod Blacklist
pub mod Window
mod Tests
