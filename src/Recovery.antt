-- ===== src/Recovery.antt =====
-- recovery-code.ts: how the recovery code is written (lib/crypto). The 16 random bytes are taken, not
-- drawn, and the key derivations are left out.
pub mod Encode
pub mod Value
pub mod Lossless
pub mod RoundTrip
