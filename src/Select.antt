-- ===== src/Select.antt =====
-- internal/noderegion, internal/nodeselect and internal/groupmember: which nodes a group admits.
pub mod Region
pub mod Filter
pub mod Membership
mod Tests
