-- ===== src/Checks/Wraps.antt =====
-- wrap-record.ts: the signed record of who wrapped a member's group-key entry. A generation or an
-- epoch is any number; a payload that cannot be built is an exception, and gives none.
use undergroundbb.Grant.Records.{Number}
use undergroundbb.Base.{
  Bool, true, false, not, ◌&&◌, [], Option, none, some, Text, Bytes, codes, ◌===◌, if◌then◌else◌,
  ◌>>=◌,
}
use undergroundbb.Platform.{Platform}
use undergroundbb.Wire.Encoding.{base64_to_bytes}
use undergroundbb.Wire.Signature.{SigningContext}
use undergroundbb.Payloads.{wrap_record_payload}
use undergroundbb.History.Records.{OwnKeyHistory}
use undergroundbb.History.Build.{build_own_key_history}
use undergroundbb.Checks.Items.{AuthorKeys, is_day_text, signed_under}

pub record WireWrapRecord : Type 0 where
  pub wrapper_user_id : Text
  pub reason : Text
  pub day : Text
  pub signature : Text

pub data WrapUnchecked : Type 0 where
  no_wrap_epoch keys_not_read malformed_keys history_unverified : WrapUnchecked

pub data WrapEvidence : Type 0 where
  approved : Text → WrapEvidence
  by_self no_record invalid : WrapEvidence
  unchecked : WrapUnchecked → WrapEvidence

pub record WrapInput : Type 0 where
  pub group_id : Text
  pub member_user_id : Text
  pub generation : Number
  pub wrap_epoch : Option Number
  pub wrap_record : Option WireWrapRecord
  pub wrapper : Option AuthorKeys

abbrev pub same_bool : Bool → Bool → Bool
same_bool true b = b
same_bool false b = not b

module _ (platform : Platform) (input : WrapInput) where
  -- `signature` and `current`
  unfoldable pub decode_wrap : WireWrapRecord → AuthorKeys → Option (Bytes × Bytes)
  decode_wrap r wrapper = do
    signature ← base64_to_bytes platform r.signature
    current ← base64_to_bytes platform wrapper.signing_public_key
    some (signature, current)

  unfoldable pub wrap_payload : WireWrapRecord → Number → Option Bytes
  wrap_payload r epoch =
      wrap_record_payload platform input.group_id r.wrapper_user_id input.member_user_id
        input.generation epoch r.reason r.day

  unfoldable pub judge_wrap : WireWrapRecord → Bytes → Bytes → OwnKeyHistory → Bytes → WrapEvidence
  judge_wrap r signature current history payload =
      if signed_under platform history current r.day SigningContext.wrap_record payload signature
      then (if r.reason === codes "self" then by_self else approved r.wrapper_user_id)
      else invalid

  -- From the point where the wrapper's keys are needed.
  unfoldable pub check_wrapper : WireWrapRecord → Number → Option AuthorKeys → Option WrapEvidence
  check_wrapper r epoch none = some (unchecked keys_not_read)
  check_wrapper r epoch (some wrapper) = elim (decode_wrap r wrapper) [
    | none ↦ some (unchecked malformed_keys)
    | some d ↦ elim (build_own_key_history platform r.wrapper_user_id d.1 wrapper.key_changes []) [
      | none ↦ some (unchecked history_unverified)
      | some history ↦
          wrap_payload r epoch >>= λ payload. some (judge_wrap r d.0 d.1 history payload)
    ]
  ]

  unfoldable pub check_named : WireWrapRecord → Number → Option WrapEvidence
  check_named r epoch =
      let is_self = r.reason === codes "self" in
      if not is_self && not (r.reason === codes "approval")
      then some invalid
      else if not (same_bool is_self (r.wrapper_user_id === input.member_user_id))
      then some invalid
      else if not (is_day_text r.day)
      then some invalid
      else check_wrapper r epoch input.wrapper

  unfoldable pub check_wrap_record : Option WrapEvidence
  check_wrap_record = elim input.wrap_record [
    | none ↦ some no_record
    | some r ↦ elim input.wrap_epoch [
      | none ↦ some (unchecked no_wrap_epoch)
      | some epoch ↦ check_named r epoch
    ]
  ]
