-- ===== src/Pin.antt =====
-- lib/crypto/pin.ts: the check of a user's served keys against the ones that the caller pinned.
pub mod Payload
pub mod Evaluate
pub mod Sets
pub mod Sound
