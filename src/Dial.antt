-- ===== src/Dial.antt =====
-- internal/outbound/pool/pool.go: which member of a pool serves a connection, and the attempts of a
-- dial.
pub mod Select
pub mod Attempt
pub mod Rotation
pub mod Bounded
pub mod Tries
mod Tests
