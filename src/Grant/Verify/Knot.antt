-- ===== src/Grant/Verify/Knot.antt =====
-- `compute`, the recursion through it, and `verifyGrantChain` itself.
use undergroundbb.Base.{
  ℕ, zero, suc, Bool, not, List, [], ◌∷◌, Option, none, some, Text, Bytes, codes, ltb, ◌===◌,
  if◌then◌else◌, ◌>>=◌,
}
use undergroundbb.Platform.{Platform}
use undergroundbb.Wire.Encoding.{decode}
use undergroundbb.Wire.Signature.{SigningContext}
use undergroundbb.Grant.Records.{
  GrantRecord, GrantChainInput, Party, Reason, GrantVerdict, valid, reject,
}
use undergroundbb.Grant.SortKey.{parse_sort_key}
use undergroundbb.Grant.Keys.{signed_on_day}
use undergroundbb.Grant.Scan.{nothing_yet, scan, grants_to}
use undergroundbb.Grant.Verify.Terms.{
  or_empty, is_role, duplicated, designation_at, citing, served_designations, pin_matched,
  anchor_valid,
}
use undergroundbb.Grant.Verify.Steps.{
  is_admin, is_elevated, body_grantor, body_signer, judge, signature_verdict, grant_payload,
  root_verdict, compute_designation, claim_verdict,
}

module _ (platform : Platform) (input : GrantChainInput) where
  unfoldable pub grant_signature : Party → Text → GrantRecord → ℕ → Bytes → GrantVerdict
  grant_signature who user g day sig = signature_verdict platform input who user (λ history.
      signed_on_day platform history day SigningContext.role_grant (grant_payload platform input g)
        sig)

  -- `verifySelfDemotion`
  unfoldable pub verify_self_demotion :
      (GrantRecord → Option GrantVerdict) → GrantRecord → ℕ → Bytes → Option GrantVerdict
  verify_self_demotion rec g day sig =
      scan (body_signer platform input g.sort_key day) (grants_to g.subject_user_id input.grants)
        nothing_yet
      >>= judge platform input rec Party.signer is_elevated (or_empty g.grantor_grant_ref)
          (grant_signature Party.signer g.subject_user_id g day sig)

  -- The rest of `compute`, for a grant by someone else.
  unfoldable pub verify_by_grantor :
      (GrantRecord → Option GrantVerdict) → GrantRecord → ℕ → Bytes → Option GrantVerdict
  verify_by_grantor rec g day sig =
      scan (body_grantor platform input rec day) (grants_to g.grantor_user_id input.grants)
        nothing_yet
      >>= judge platform input rec Party.grantor is_admin (or_empty g.grantor_grant_ref)
          (grant_signature Party.grantor g.grantor_user_id g day sig)

  -- `verifyClaim`
  unfoldable pub verify_claim :
      (GrantRecord → Option GrantVerdict) → GrantRecord → Text → ℕ → Bytes → Option GrantVerdict
  verify_claim rec g designation_key day sig =
      if not (is_admin g.granted_role)
      then some (reject Reason.claim_not_admin)
      else if ltb 1 (citing designation_key input.grants)
      then some (reject Reason.designation_reused)
      else elim (designation_at designation_key (served_designations platform input)) [
        | none ↦ some (reject Reason.designation_not_served)
        | some d ↦ compute_designation platform input rec d >>= elim [
          | valid ↦ some (claim_verdict platform input g designation_key d day sig)
          | reject why ↦ some (reject (Reason.designation_unverified why))
        ]
      ]

  -- `compute`, from the point where the row's own fields are well formed.
  unfoldable pub compute_signed :
      (GrantRecord → Option GrantVerdict) → GrantRecord → ℕ → Bytes → Option GrantVerdict
  compute_signed rec g day sig =
      if not (or_empty g.via_designation === [])
      then verify_claim rec g (or_empty g.via_designation) day sig
      else if g.sort_key === input.anchor.root_grant_sort_key
      then some (root_verdict platform input g day sig)
      else if or_empty g.grantor_grant_ref === []
      then some (reject Reason.missing_ref)
      else if g.grantor_user_id === g.subject_user_id
      then (if not (g.granted_role === codes "member")
          then some (reject Reason.non_root_self_grant)
          else verify_self_demotion rec g day sig)
      else verify_by_grantor rec g day sig

  unfoldable pub compute : (GrantRecord → Option GrantVerdict) → GrantRecord → Option GrantVerdict
  compute rec g =
      if duplicated g.sort_key input.grants
      then some (reject Reason.duplicate_sort_key)
      else elim (parse_sort_key platform g.sort_key) [
        | none ↦ some (reject Reason.malformed_sort_key)
        | some parsed ↦
            if not (parsed.subject === g.subject_user_id)
            then some (reject Reason.subject_mismatch)
            else if not (is_role g.granted_role)
            then some (reject Reason.unknown_role)
            else elim (decode platform (some g.signature)) [
              | none ↦ some (reject Reason.malformed_signature)
              | some sig ↦ compute_signed rec g parsed.day sig
            ]
      ]

  -- `verifyOne` within `depth` nested calls.
  unfoldable pub verify_one : ℕ → GrantRecord → Option GrantVerdict
  verify_one zero g = none
  verify_one (suc depth) g = compute (verify_one depth) g

  -- `verdicts`, in the order in which they are set.
  unfoldable pub verdicts : ℕ → List GrantRecord → Option (List (Text × GrantVerdict))
  verdicts depth [] = some []
  verdicts depth (g ∷ gs) = do
    v ← verify_one depth g
    rest ← verdicts depth gs
    some ((g.sort_key, v) ∷ rest)

pub record GrantChainResult : Type 0 where
  pub anchor_valid : Bool
  pub anchor_pinned : Bool
  pub verdicts : List (Text × GrantVerdict)
  -- `grantsBySubject` is read only through `grants_to` of these.
  pub grants : List GrantRecord

unfoldable pub verify_grant_chain : Platform → ℕ → GrantChainInput → Option GrantChainResult
verify_grant_chain platform depth input = do
  found ← verdicts platform input depth input.grants
  some (record {
    anchor_valid = anchor_valid platform input;
    anchor_pinned = pin_matched platform input;
    verdicts = found;
    grants = input.grants;
  })

-- `verdicts.get(sortKey)`
unfoldable pub verdict_of : Text → List (Text × GrantVerdict) → Option GrantVerdict
verdict_of key [] = none
verdict_of key ((k, v) ∷ rest) = if k === key then some v else verdict_of key rest
