-- ===== src/Group.antt =====
-- internal/group: the member state machine of the proxy groups and the capacity healer.
pub mod State
pub mod Member
pub mod Sweep
pub mod Failure
pub mod Success
pub mod Current
pub mod Register
pub mod Reconcile
pub mod Snapshots
pub mod Invariant
pub mod Spread
pub mod Clearing
pub mod Probes
pub mod Put
pub mod Failing
pub mod Recovering
pub mod Serving
pub mod Installing
pub mod Settling
pub mod Migrating
pub mod Leaving
pub mod History
pub mod Replay
pub mod Ring
pub mod Once
pub mod Reported
pub mod Redelivery
pub mod Everywhere
pub mod Recovery
pub mod Readmission
pub mod Banned
pub mod Threshold
mod Tests
