-- ===== src/Dirty.antt =====
-- internal/app/membership_queue.go: the queue of nodes whose membership must be reconciled.
pub mod Queue
pub mod Retention
mod Tests
