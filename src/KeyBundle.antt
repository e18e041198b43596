-- ===== src/KeyBundle.antt =====
-- keybundle.ts: the plaintext under which the two private keys are wrapped (lib/crypto).
pub mod Layout
pub mod Exact
