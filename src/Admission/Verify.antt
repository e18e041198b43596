-- ===== src/Admission/Verify.antt =====
-- `verifyAdmission` of admission.ts. A generation is a natural number.
use undergroundbb.Base.{
  ℕ, Bool, false, not, ◌&&◌, ◌||◌, List, [], ◌∷◌, ◌++◌, Option, none, some, Text, Bytes, codes, ltb,
  leb, ◌===◌, any, find, if◌then◌else◌, ◌>>=◌, is_some,
}
use undergroundbb.Platform.{Platform}
use undergroundbb.Wire.Compare.{bytes_equal}
use undergroundbb.Wire.Signature.{SigningContext}
use undergroundbb.Payloads.{admission_payload}
use undergroundbb.Grant.Records.{GrantRecord, GrantVerdict, UserKeyHistory, is_valid}
use undergroundbb.Grant.SortKey.{day_prefix, at_end, parse_sort_key}
use undergroundbb.Grant.Keys.{signed_on_day}
use undergroundbb.Grant.Scan.{grants_to}
use undergroundbb.Grant.Verify.{GrantChainResult, verdict_of}
use undergroundbb.History.Records.{OwnKeyHistory}
use undergroundbb.History.Roster.{decode_sized}
use undergroundbb.History.Query.{chain_carries_keys}

pub record AdmissionRecord : Type 0 where
  pub invitee_user_id : Text
  pub inviter_user_id : Text
  pub invite_id : Text
  pub invitee_ed25519_public_key : Text
  pub invitee_x25519_public_key : Text
  pub inviter_grant_ref : Text
  pub day : Text
  pub generation : ℕ
  pub signature : Text

-- The texts of the refusals, one constructor for each.
pub data AdmissionReason : Type 0 where
  malformed malformed_date signing_key_not_served wrapping_key_not_served : AdmissionReason
  grant_not_on_record no_inviting_role grant_unverified malformed_address : AdmissionReason
  dated_before_grant other_malformed_address role_changed : AdmissionReason
  no_inviter_keys signature_invalid : AdmissionReason

pub data AdmissionVerdict : Type 0 where
  ok : AdmissionVerdict
  refused : AdmissionReason → AdmissionVerdict

pub record VerifyAdmissionInput : Type 0 where
  pub group_id : Text
  pub admission_record : AdmissionRecord
  pub invitee_signing_keys : List Bytes
  pub invitee_wrapping_key : Text
  pub chain : GrantChainResult
  pub inviter_history : Option UserKeyHistory
  pub invitee_history : Option OwnKeyHistory

-- The keys and the signature of the record, decoded.
pub record DecodedAdmission : Type 0 where
  pub ed : Bytes
  pub x : Bytes
  pub sig : Bytes

abbrev pub can_invite : Text → Bool
can_invite role = role === codes "admin" || role === codes "ambassador"

-- `chain.verdicts.get(ref.sortKey)?.valid === true`
unfoldable pub found_valid : Option GrantVerdict → Bool
found_valid none = false
found_valid (some v) = is_valid v

module _ (platform : Platform) where
  open platform use {date_parse, iso_day}

  -- `dayStart`
  unfoldable pub day_start : Text → Option ℕ
  day_start day =
      if is_some (day_prefix day >>= λ d. at_end d.1)
      then (date_parse (day ++ codes "T00:00:00.000Z") >>= λ ms.
          if iso_day ms === day then some ms else none)
      else none

  unfoldable pub decode_admission : AdmissionRecord → Option DecodedAdmission
  decode_admission r = do
    ed ← decode_sized platform 32 r.invitee_ed25519_public_key
    x ← decode_sized platform 32 r.invitee_x25519_public_key
    sig ← decode_sized platform 64 r.signature
    some (record { ed = ed; x = x; sig = sig })

  module _ (input : VerifyAdmissionInput) where
    abbrev pub the_record : AdmissionRecord
    the_record = input.admission_record

    -- The served wrapping key is the admitted one, or one that the invitee's own chain carries it to.
    unfoldable pub carried_to : DecodedAdmission → Option Bytes → Bool
    carried_to k none = false
    carried_to k (some served) = bytes_equal served k.x || elim input.invitee_history [
      | none ↦ false
      | some history ↦ chain_carries_keys platform history k.ed k.x the_record.day served
    ]

    -- The loop over the inviter's other grants.
    unfoldable pub undisturbed : Text → ℕ → ℕ → List GrantRecord → Option AdmissionReason
    undisturbed ref from day [] = none
    undisturbed ref from day (g ∷ gs) =
        let rest = undisturbed ref from day gs in
        if g.sort_key === ref then rest else elim (parse_sort_key platform g.sort_key) [
          | none ↦ some other_malformed_address
          | some k ↦ if leb from k.day && leb k.day day then some role_changed else rest
        ]

    unfoldable pub payload_of_admission : DecodedAdmission → Bytes
    payload_of_admission k =
        admission_payload platform input.group_id the_record.inviter_user_id
          the_record.invitee_user_id k.ed k.x the_record.invite_id the_record.inviter_grant_ref
          the_record.day the_record.generation

    unfoldable pub admission_signature : DecodedAdmission → ℕ → AdmissionVerdict
    unfolding payload_of_admission
    admission_signature k day = elim input.inviter_history [
      | none ↦ refused no_inviter_keys
      | some history ↦
          if signed_on_day platform history day SigningContext.admission (payload_of_admission k)
            k.sig
          then ok
          else refused signature_invalid
    ]

    -- From the inviter's grant on.
    unfoldable pub judge_inviter : DecodedAdmission → ℕ → GrantRecord → AdmissionVerdict
    judge_inviter k day ref =
        if not (can_invite ref.granted_role)
        then refused no_inviting_role
        else if not (found_valid (verdict_of ref.sort_key input.chain.verdicts))
        then refused grant_unverified
        else elim (parse_sort_key platform ref.sort_key) [
          | none ↦ refused malformed_address
          | some ref_key ↦
              if ltb day ref_key.day
              then refused dated_before_grant
              else elim (undisturbed ref.sort_key ref_key.day day
                  (grants_to the_record.inviter_user_id input.chain.grants)) [
                    | some why ↦ refused why
                    | none ↦ admission_signature k day
                  ]
        ]

    -- `if (ref === undefined) …`
    unfoldable pub judge_found : DecodedAdmission → ℕ → Option GrantRecord → AdmissionVerdict
    judge_found k day none = refused grant_not_on_record
    judge_found k day (some ref) = judge_inviter k day ref

    unfoldable pub judge_admission : DecodedAdmission → ℕ → AdmissionVerdict
    judge_admission k day =
        if not (any (λ s. bytes_equal s k.ed) input.invitee_signing_keys)
        then refused signing_key_not_served
        else if not (carried_to k (decode_sized platform 32 input.invitee_wrapping_key))
        then refused wrapping_key_not_served
        else judge_found k day (
            find (λ g. g.sort_key === the_record.inviter_grant_ref)
              (grants_to the_record.inviter_user_id input.chain.grants))

    unfoldable pub verify_admission : AdmissionVerdict
    verify_admission = elim (decode_admission the_record) [
      | none ↦ refused malformed
      | some k ↦ elim (day_start the_record.day) [
        | none ↦ refused malformed_date
        | some day ↦ judge_admission k day
      ]
    ]
