-- ===== src/Removal.antt =====
-- removal.ts: who was removed from a group, and when (lib/crypto). A generation is any number until it
-- is checked; the reason of a failure is left out.
pub mod Verify
pub mod Index
pub mod Marks
pub mod Run
pub mod Sound
