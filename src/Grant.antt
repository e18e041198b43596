-- ===== src/Grant.antt =====
-- lib/crypto/grant-chain.ts: the client's check of a group's role grants.
pub mod Records
pub mod SortKey
pub mod Keys
pub mod Scan
pub mod Verify
pub mod Rules
pub mod Current
pub mod Judged
pub mod Sound
pub mod Authority
pub mod Roles
pub mod Backed
pub mod Depth
pub mod Circular
