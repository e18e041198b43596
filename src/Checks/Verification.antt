-- ===== src/Checks/Verification.antt =====
-- verification.ts: a user's signed record that they compared another user's fingerprint.
use undergroundbb.Base.{
  Bool, false, not, ◌&&◌, [], ◌∷◌, ◌++◌, Option, none, some, Text, Bytes, codes, ◌===◌,
  if◌then◌else◌, ◌>>=◌,
}
use undergroundbb.Platform.{Platform}
use undergroundbb.Wire.Encoding.{base64_to_bytes, length_prefixed_concat}
use undergroundbb.Wire.Signature.{SigningContext, verify}
use undergroundbb.History.Records.{OwnKeyHistory}
use undergroundbb.History.Query.{own_signer_accepted}
use undergroundbb.Pin.Evaluate.{is_utc_day}
use undergroundbb.Checks.Evidence.{same_bytes}

pub record VerificationRecord : Type 0 where
  pub verified_user_id : Text
  pub fingerprint : Text
  pub verifier_signing_public_key : Text
  pub signature : Text
  pub signed_day : Text

pub data VerificationVerdict : Type 0 where
  not_recorded verified changed bad_signature : VerificationVerdict

pub record EvaluateVerificationInput : Type 0 where
  pub verifier_user_id : Text
  pub verifier_signing_public_key : Bytes
  pub verifier_history : Option OwnKeyHistory
  pub verified_user_id : Text
  pub stored : Option VerificationRecord
  pub served_fingerprint : Option Text

module _ (platform : Platform) where
  open platform use {utf8}

  unfoldable pub verification_payload : Text → Text → Bytes → Text → Text → Bytes
  verification_payload verifier_uuid verified_uuid verifier_key fingerprint utc_day =
      length_prefixed_concat (
        utf8 verifier_uuid
        ∷ utf8 verified_uuid
        ∷ verifier_key
        ∷ utf8 fingerprint
        ∷ utf8 utc_day
        ∷ [])

  module _ (input : EvaluateVerificationInput) where
    unfoldable pub listed_verifier : VerificationRecord → Bytes → Bytes → Bool
    listed_verifier r signer signature = elim input.verifier_history [
      | none ↦ false
      | some history ↦
          same_bytes history.current input.verifier_signing_public_key
          && own_signer_accepted platform history signer r.signed_day
              (codes "VERIFIED#" ++ input.verified_user_id) signature
    ]

    unfoldable pub payload_of_verification : VerificationRecord → Bytes → Bytes
    payload_of_verification r signer =
        verification_payload input.verifier_user_id input.verified_user_id signer r.fingerprint
          r.signed_day

    -- `servedFingerprint === null || servedFingerprint !== record.fingerprint`
    unfoldable pub compare_fingerprint : VerificationRecord → Option Text → VerificationVerdict
    compare_fingerprint r none = changed
    compare_fingerprint r (some served) = if served === r.fingerprint then verified else changed

    unfoldable pub judge_verification : VerificationRecord → Bytes → Bytes → VerificationVerdict
    judge_verification r signer signature =
        if not (same_bytes signer input.verifier_signing_public_key)
          && not (listed_verifier r signer signature)
        then bad_signature
        else if not (
            verify platform signer SigningContext.verification (payload_of_verification r signer)
              signature)
        then bad_signature
        else compare_fingerprint r input.served_fingerprint

    unfoldable pub decode_verification : VerificationRecord → Option (Bytes × Bytes)
    decode_verification r = do
      signer ← base64_to_bytes platform r.verifier_signing_public_key
      signature ← base64_to_bytes platform r.signature
      some (signer, signature)

    unfoldable pub evaluate_verification : VerificationVerdict
    evaluate_verification = elim input.stored [
      | none ↦ not_recorded
      | some r ↦
          if not (r.verified_user_id === input.verified_user_id)
          then bad_signature
          else elim (decode_verification r) [
            | none ↦ bad_signature
            | some d ↦
                if not (is_utc_day platform r.signed_day)
                then bad_signature
                else judge_verification r d.0 d.1
          ]
    ]
