-- ===== src/Rebase.antt =====
-- internal/boxmgr/reload_rebase.go: what changed during a reload, carried into its result.
pub mod Merge
pub mod Topology
mod Tests
