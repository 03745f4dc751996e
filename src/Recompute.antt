-- ===== src/Recompute.antt =====
-- internal/nodetag/queue.go: the queue of nodes whose tags must be computed again.
pub mod Queue
pub mod Covered
pub mod Armed
mod Tests
