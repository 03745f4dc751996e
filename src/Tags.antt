-- ===== src/Tags.antt =====
-- internal/nodetag: the tags that rules give to a node.
pub mod Resolve
pub mod Mutex
pub mod Winner
mod Tests
