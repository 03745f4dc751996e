-- ===== src/Probe.antt =====
-- internal/probe: which measurement events are applied.
pub mod Event
pub mod Streams
mod Tests
