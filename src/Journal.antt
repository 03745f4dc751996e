-- ===== src/Journal.antt =====
-- internal/store/health_events.go and internal/monitor/health_event_hub.go: the journal of health
-- events and a consumer that reads it.
pub mod Store
pub mod Subscription
pub mod System
pub mod Order
pub mod Prune
pub mod Delivered
pub mod Kept
pub mod Exact
pub mod Once
mod Tests
