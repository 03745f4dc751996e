-- ===== src/Location.antt =====
-- internal/nodeloc: which landing location a node carries after a probe.
pub mod Decide
pub mod Debounce
pub mod Stability
mod Tests
