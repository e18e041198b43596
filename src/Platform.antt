-- ===== src/Platform.antt =====
-- What the program takes from the browser and from the @noble packages, as one record. Nothing of
-- it is defined here: every module that needs it takes it as a parameter.
--
-- An instant is counted in milliseconds from the earliest one that a `Date` can hold, which is
-- 8.64e15 ms before 1970, so every time value is a natural number; the program only compares
-- instants and adds durations to them, which no shift of the origin changes.
use undergroundbb.Base.{ℕ, Text, Bytes, Bool, Option}

pub record Platform : Type 0 where
  -- `atob` with the character codes of its result; none where it throws.
  pub atob : Text → Option Bytes
  -- `new TextEncoder().encode`
  pub utf8 : Text → Bytes
  -- `sha256` of @noble/hashes
  pub sha256 : Bytes → Bytes
  -- `ed25519.verify(signature, message, publicKey)` of @noble/curves; none where it throws.
  pub ed25519_verify : Bytes → Bytes → Bytes → Option Bool
  -- `Date.parse`; none for NaN.
  pub date_parse : Text → Option ℕ
  -- `new Date(t).toISOString().slice(0, 10)`
  pub iso_day : ℕ → Text
