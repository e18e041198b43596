-- ===== src/Checks.antt =====
-- The checks of signed items that rest on a user's key history: posts, comments, wrap records,
-- key changes and verifications (lib/crypto).
pub mod Items
pub mod Wraps
pub mod Evidence
pub mod Verification
pub mod Signed
pub mod ItemsSound
pub mod WrapsSound
pub mod WrapsThrow
pub mod EvidenceSound
pub mod VerificationSound
