-- ===== src/Wire.antt =====
-- The byte layer of lib/crypto: base64.ts, ed25519.ts (verification), the constant-time byte
-- comparisons, and the payload encoding of payload.ts.
pub mod Bits
pub mod Compare
pub mod Decimal
pub mod Encoding
pub mod Injective
pub mod Signature
