-- ===== src/History/Records.antt =====
-- The rotations that the server serves, and the history that is built from them (own-history.ts). An
-- epoch is a natural number.
use undergroundbb.Base.{ℕ, List, Option, Text, Bytes}

pub record WireKeyChange : Type 0 where
  pub key_epoch : ℕ
  pub day : Text
  pub old_signing_public_key : Text
  pub old_wrapping_public_key : Text
  pub new_signing_public_key : Text
  pub new_wrapping_public_key : Text
  pub roster_digest : Text
  pub old_signature : Text
  pub new_signature : Text

pub record WireKeyChangeRoster : Type 0 where
  pub key_epoch : ℕ
  pub roster : List Text

pub record OwnKeyLink : Type 0 where
  pub epoch : ℕ
  pub day : Text
  pub old_signing : Bytes
  pub new_signing : Bytes
  pub old_wrapping : Bytes
  pub new_wrapping : Bytes
  pub roster : Option (List Bytes)

pub record OwnKeyHistory : Type 0 where
  pub current : Bytes
  pub links : List OwnKeyLink
