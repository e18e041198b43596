-- ===== src/History.antt =====
-- lib/crypto/own-history.ts: a user's own signing keys, verified from the signed rotations.
pub mod Records
pub mod Roster
pub mod Build
pub mod Query
pub mod Chain
pub mod Sound
pub mod Served
pub mod Held
pub mod Signer
pub mod Covered
