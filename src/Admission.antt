-- ===== src/Admission.antt =====
-- lib/crypto/admission.ts: the check of an inviter's signed admission of a member.
pub mod Verify
pub mod Sound
