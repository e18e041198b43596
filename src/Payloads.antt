-- ===== src/Payloads.antt =====
-- The payloads of group.ts and key-rotation.ts that the verifiers rebuild before they check a
-- signature. Numbers are written in decimal; where a payload takes a natural
-- number, its callers have checked that it is a safe integer, or take one themselves.
use undergroundbb.Grant.Records.{Number, natural, negative, fraction, max_safe_integer}
use undergroundbb.Base.{Option, some, none, suc, leb, if◌then◌else◌, ◌>>=◌, ℕ, [], ◌∷◌, Text, Bytes}
use undergroundbb.Platform.{Platform}
use undergroundbb.Wire.Decimal.{decimal}
use undergroundbb.Wire.Encoding.{length_prefixed_concat}

-- `String(n)`, if `Number.isSafeInteger(n)`.
unfoldable pub safe_text : Number → Option Text
safe_text (natural n) = if leb n max_safe_integer then some (decimal n) else none
safe_text (negative n) =
    if leb (suc n) max_safe_integer then some (b'-' ∷ decimal (suc n)) else none
safe_text fraction = none

module _ (platform : Platform) where
  open platform use {utf8}

  unfoldable pub trust_anchor_payload : Text → Bytes → Text → Bytes
  trust_anchor_payload creator_uuid creator_signing_public_key group_id =
      length_prefixed_concat (utf8 creator_uuid ∷ creator_signing_public_key ∷ utf8 group_id ∷ [])

  unfoldable pub role_grant_payload : Text → Text → Text → Text → Text → Bytes
  role_grant_payload group_id subject_uuid role grant_sort_key grantor_grant_ref =
      length_prefixed_concat (
        utf8 group_id
        ∷ utf8 subject_uuid
        ∷ utf8 role
        ∷ utf8 grant_sort_key
        ∷ utf8 grantor_grant_ref
        ∷ [])

  unfoldable pub admission_payload :
      Text → Text → Text → Bytes → Bytes → Text → Text → Text → ℕ → Bytes
  admission_payload group_id inviter_uuid invitee_uuid ed x invite_id inviter_grant_ref day
        generation =
      length_prefixed_concat (
        utf8 group_id
        ∷ utf8 inviter_uuid
        ∷ utf8 invitee_uuid
        ∷ ed
        ∷ x
        ∷ utf8 invite_id
        ∷ utf8 inviter_grant_ref
        ∷ utf8 day
        ∷ utf8 (decimal generation)
        ∷ [])

  -- none where it throws, at a number that is not a safe integer.
  unfoldable pub wrap_record_payload :
      Text → Text → Text → Number → Number → Text → Text → Option Bytes
  wrap_record_payload group_id wrapper_uuid member_uuid generation key_epoch reason day = do
    generation_text ← safe_text generation
    epoch_text ← safe_text key_epoch
    some (
        length_prefixed_concat (
          utf8 group_id
          ∷ utf8 wrapper_uuid
          ∷ utf8 member_uuid
          ∷ utf8 generation_text
          ∷ utf8 epoch_text
          ∷ utf8 reason
          ∷ utf8 day
          ∷ []))

  unfoldable pub rotation_start_payload : Text → Text → Text → ℕ → Bytes
  rotation_start_payload group_id remover_uuid subject_uuid generation =
      length_prefixed_concat
        (utf8 group_id ∷ utf8 remover_uuid ∷ utf8 subject_uuid ∷ utf8 (decimal generation) ∷ [])

  unfoldable pub rotation_rekey_payload : Text → Text → Text → ℕ → Text → Bytes
  rotation_rekey_payload group_id admin_uuid member_uuid generation reason =
      length_prefixed_concat (
        utf8 group_id
        ∷ utf8 admin_uuid
        ∷ utf8 member_uuid
        ∷ utf8 (decimal generation)
        ∷ utf8 reason
        ∷ [])

  unfoldable pub successor_designation_payload : Text → Text → Text → ℕ → Text → Text → Bytes
  successor_designation_payload group_id admin_uuid successor_uuid period_days designation_sort_key
        admin_grant_ref =
      length_prefixed_concat (
        utf8 group_id
        ∷ utf8 admin_uuid
        ∷ utf8 successor_uuid
        ∷ utf8 (decimal period_days)
        ∷ utf8 designation_sort_key
        ∷ utf8 admin_grant_ref
        ∷ [])

  unfoldable pub successor_claim_payload : Text → Text → Text → Text → Bytes
  successor_claim_payload group_id successor_uuid designation_sort_key claim_sort_key =
      length_prefixed_concat
        (utf8 group_id ∷ utf8 successor_uuid ∷ utf8 designation_sort_key ∷ utf8 claim_sort_key ∷ [])

  -- `keyRotationPayload` of key-rotation.ts.
  unfoldable pub key_rotation_payload :
      Text → Bytes → Bytes → Bytes → Bytes → Text → ℕ → Bytes → Bytes
  key_rotation_payload user_uuid old_signing old_wrapping new_signing new_wrapping utc_day key_epoch
        roster_digest =
      length_prefixed_concat (
        utf8 user_uuid
        ∷ old_signing
        ∷ old_wrapping
        ∷ new_signing
        ∷ new_wrapping
        ∷ utf8 utc_day
        ∷ utf8 (decimal key_epoch)
        ∷ roster_digest
        ∷ [])
