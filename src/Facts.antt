-- ===== src/Facts.antt =====
-- internal/nodefacts: the facts of a node, the conditions over them, and how a condition is checked
-- and evaluated.
pub mod Schema
pub mod Condition
pub mod Compare
pub mod Evaluate
pub mod Validate
pub mod Kleene
pub mod Frame
pub mod Bounds
pub mod Sound
pub mod Total
pub mod Unmeasured
pub mod Registry
pub mod Standard
mod Tests
