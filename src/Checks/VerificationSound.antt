-- ===== src/Checks/VerificationSound.antt =====
-- What a verified mark rests on.
use undergroundbb.Base.{
  ◌≡◌, ◌⊎◌, inl, inr, true, false, not, ◌&&◌, ◌++◌, Option, none, some, arith, Text, Bytes, codes,
  Bool-cases, Option-cases, ◌===◌, ===_iff, and-eq_true,
}
use undergroundbb.Platform.{Platform}
use undergroundbb.Wire.Signature.{SigningContext, verify}
use undergroundbb.History.Records.{OwnKeyHistory}
use undergroundbb.History.Query.{own_signer_accepted}
use undergroundbb.Pin.Evaluate.{is_utc_day}
use undergroundbb.Checks.Evidence.{same_bytes}
use undergroundbb.Checks.EvidenceSound.{same_bytes_sound}
use undergroundbb.Checks.Verification.{
  VerificationRecord, EvaluateVerificationInput, verified, listed_verifier, payload_of_verification,
  compare_fingerprint, judge_verification, decode_verification, evaluate_verification,
}

-- The record's signer is the verifier's own current key, or one that the verifier's history, which
-- ends at that key, accepts for the record on its day.
pub IsOwnSigner : Platform → EvaluateVerificationInput → VerificationRecord → Bytes → Bytes → Type 0
IsOwnSigner platform input r signer signature =
    (signer ≡ input.verifier_signing_public_key)
    ⊎ ((history : OwnKeyHistory) × (input.verifier_history ≡ some history)
        × (history.current ≡ input.verifier_signing_public_key)
        × (own_signer_accepted platform history signer r.signed_day
              (codes "VERIFIED#" ++ input.verified_user_id) signature
            ≡ true))

-- The verifier signed, on a real day, that the served fingerprint is the user's.
pub record IsVerified (platform : Platform) (input : EvaluateVerificationInput)
    (r : VerificationRecord) : Type 0 where
  pub stored : input.stored ≡ some r
  pub about : r.verified_user_id ≡ input.verified_user_id
  pub signer : Bytes
  pub signature : Bytes
  pub decoded : decode_verification platform input r ≡ some (signer, signature)
  pub is_day : is_utc_day platform r.signed_day ≡ true
  pub own : IsOwnSigner platform input r signer signature
  pub signed :
      verify platform signer SigningContext.verification
        (payload_of_verification platform input r signer)
        signature
      ≡ true
  pub served : input.served_fingerprint ≡ some r.fingerprint

listed_verifier_sound :
    (platform : Platform) (input : EvaluateVerificationInput) (r : VerificationRecord)
    (signer signature : Bytes)
    → listed_verifier platform input r signer signature ≡ true
    → IsOwnSigner platform input r signer signature
unfolding listed_verifier IsOwnSigner
listed_verifier_sound platform input r signer signature e =
    elim (Option-cases input.verifier_history) [
      | inl unread ↦ absurd (ground (arith, unread, e))
      | inr (history, known) ↦
          let (same, accepted) =
            and-eq_true (same_bytes history.current input.verifier_signing_public_key) _
              (ground (arith, known, e)) in
          inr (
            history,
            known,
            same_bytes_sound history.current input.verifier_signing_public_key same,
            accepted,
          )
    ]

IsOwnSigner-sound :
    (platform : Platform) (input : EvaluateVerificationInput) (r : VerificationRecord)
    (signer signature : Bytes)
    → (not (same_bytes signer input.verifier_signing_public_key)
        && not (listed_verifier platform input r signer signature))
      ≡ false
    → IsOwnSigner platform input r signer signature
unfolding IsOwnSigner
IsOwnSigner-sound platform input r signer signature e =
    elim (Bool-cases (same_bytes signer input.verifier_signing_public_key)) [
      | inl same ↦ inl (same_bytes_sound signer input.verifier_signing_public_key same)
      | inr other ↦
          listed_verifier_sound platform input r signer signature (ground (arith, other, e))
    ]

compare_fingerprint_sound :
    (platform : Platform) (input : EvaluateVerificationInput) (r : VerificationRecord)
    (served : Option Text)
    → compare_fingerprint platform input r served ≡ verified
    → served ≡ some r.fingerprint
unfolding compare_fingerprint
compare_fingerprint_sound platform input r none e = cc
compare_fingerprint_sound platform input r (some served) e =
    elim (Bool-cases (served === r.fingerprint)) [
      | inl same ↦ cc ((===_iff served r.fingerprint).0 same)
      | inr other ↦ absurd (ground (arith, other, e))
    ]

-- A user counts as verified only if the stored record is about that user, its day is a real one, its
-- signer is the verifier's current key or one that the verifier's history accepts for this record, the
-- signer signed the fingerprint for that user on that day, and the served fingerprint is that one.
pub evaluate_verification_sound :
    (platform : Platform) (input : EvaluateVerificationInput)
    → evaluate_verification platform input ≡ verified
    → (r : VerificationRecord) × IsVerified platform input r
unfolding evaluate_verification judge_verification
evaluate_verification_sound platform input e = elim (Option-cases input.stored) [
  | inl absent ↦ absurd (ground (arith, absent, e))
  | inr (r, stored) ↦ elim (Option-cases (decode_verification platform input r)) [
    | inl malformed ↦ absurd (ground (arith, stored, malformed, e))
    | inr (d, decoded) ↦
        let facts : ((r.verified_user_id === input.verified_user_id) ≡ true)
            × (is_utc_day platform r.signed_day ≡ true)
            × ((not (same_bytes d.0 input.verifier_signing_public_key)
                  && not (listed_verifier platform input r d.0 d.1))
                ≡ false)
            × (verify platform d.0 SigningContext.verification
                  (payload_of_verification platform input r d.0) d.1
                ≡ true)
            × (compare_fingerprint platform input r input.served_fingerprint ≡ verified) =
          ground (arith, stored, decoded, e) in
        (
          r,
          record {
            stored = stored;
            about = (===_iff r.verified_user_id input.verified_user_id).0 facts.0;
            signer = d.0;
            signature = d.1;
            decoded = decoded;
            is_day = facts.1;
            own = IsOwnSigner-sound platform input r d.0 d.1 facts.2;
            signed = facts.3;
            served = compare_fingerprint_sound platform input r input.served_fingerprint facts.4;
          },
        )
  ]
]
