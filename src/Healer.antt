-- ===== src/Healer.antt =====
-- internal/group/healer.go and healer_coordinator.go: capacity of a group.
pub mod Policy
pub mod Plan
pub mod Refill
pub mod Slots
pub mod Capacity
pub mod Attempts
pub mod Budget
pub mod Rounds
mod Tests
