-- ===== src/Succession.antt =====
-- lib/groups/designation.ts: what the successor designations of a group say right now.
pub mod Status
pub mod Newest
pub mod Offers
