-- ===== src/Grant/Verify/Steps.antt =====
-- The checks of one grant and of one designation, over an argument `rec` for the recursive calls.
use undergroundbb.Base.{
  ℕ, ◌+◌, ◌*◌, Bool, false, not, ◌&&◌, ◌||◌, [], ◌∷◌, Option, none, some, Text, Bytes, codes, ltb,
  leb, ◌==◌, ◌===◌, any, length, if◌then◌else◌, ◌>>=◌,
}
use undergroundbb.Platform.{Platform}
use undergroundbb.Wire.Compare.{bytes_equal}
use undergroundbb.Wire.Encoding.{decode}
use undergroundbb.Wire.Signature.{SigningContext, verify}
use undergroundbb.Payloads.{
  role_grant_payload, successor_designation_payload, successor_claim_payload,
}
use undergroundbb.Grant.Records.{
  GrantRecord, DesignationRecord, UserKeyHistory, GrantChainInput, Party, Reason, GrantVerdict,
  valid, reject, is_valid,
}
use undergroundbb.Grant.SortKey.{ParsedKey, parse_sort_key, parse_designation_key}
use undergroundbb.Grant.Keys.{day_ms, keys_on_day, signed_on_day}
use undergroundbb.Grant.Scan.{Act, skip, stop, note, Latest, nothing_yet, scan, grants_to}
use undergroundbb.Grant.Verify.Terms.{
  or_empty, names, days, period_in_range, duplicated_designation, designations_by,
  served_designations, anchor_key, pin_mismatch, anchor_valid,
}

abbrev pub claim_day_skew_tolerance_ms : ℕ
claim_day_skew_tolerance_ms = 2 * 60 * 60 * 1000

unfoldable pub is_self_demotion : GrantRecord → Bool
is_self_demotion g = g.grantor_user_id === g.subject_user_id && g.granted_role === codes "member"

abbrev pub is_admin : Text → Bool
is_admin role = role === codes "admin"

abbrev pub is_elevated : Text → Bool
is_elevated role = role === codes "admin" || role === codes "ambassador"

module _ (platform : Platform) (input : GrantChainInput) where
  -- The bodies of the loops that look for a user's current grant on a day.
  note_before : ℕ → ℕ → Act
  note_before day d = if ltb day d then skip else note d

  unfoldable pub body_grantor : (GrantRecord → Option GrantVerdict) → ℕ → GrantRecord → Option Act
  unfolding note_before
  body_grantor rec day other = elim (parse_sort_key platform other.sort_key) [
    | none ↦ some skip
    | some p ↦
        let again = rec other >>= λ v. some (if is_valid v then skip else stop) in
        if p.day == day
        then if is_self_demotion other then again else some stop
        else some (note_before day p.day)
  ]

  unfoldable pub body_admin : ℕ → GrantRecord → Option Act
  unfolding note_before
  body_admin day other = elim (parse_sort_key platform other.sort_key) [
    | none ↦ some skip
    | some p ↦ if p.day == day then some stop else some (note_before day p.day)
  ]

  unfoldable pub body_signer : Text → ℕ → GrantRecord → Option Act
  unfolding body_admin
  body_signer own_key day other =
      if other.sort_key === own_key then some skip else body_admin day other

  -- The last step of every check: the history of the signer, and the signature under its keys.
  unfoldable pub signature_verdict : Party → Text → (UserKeyHistory → Bool) → GrantVerdict
  signature_verdict who user signed = elim (input.key_histories user) [
    | none ↦ reject (Reason.no_history who)
    | some history ↦ if signed history then valid else reject (Reason.signature_invalid who)
  ]

  -- What follows the loop: the one current grant, its role, its own verdict, and the signature.
  unfoldable pub judge :
      (GrantRecord → Option GrantVerdict)
      → Party
      → (Text → Bool)
      → Text
      → GrantVerdict
      → Option Latest
      → Option GrantVerdict
  judge rec who role_fits ref signature none = some (reject (Reason.role_changed who))
  judge rec who role_fits ref signature (some l) = elim l.grants [
    | [] ↦ some (reject (Reason.no_grant who))
    | current ∷ more ↦
        let own = rec current >>= λ v.
        some (if not (is_valid v) then reject (Reason.unverified who) else signature) in
        if ltb 0 (length more)
        then some (reject (Reason.ambiguous who))
        else if not (ref === current.sort_key)
        then some (reject (Reason.wrong_ref who))
        else if not (role_fits current.granted_role)
        then some (reject (Reason.wrong_role who))
        else own
  ]

  unfoldable pub grant_payload : GrantRecord → Bytes
  grant_payload g =
      role_grant_payload platform input.group_id g.subject_user_id g.granted_role g.sort_key
        (or_empty g.grantor_grant_ref)

  -- `compute` for the row that the anchor names as the root.
  unfoldable pub root_verdict : GrantRecord → ℕ → Bytes → GrantVerdict
  root_verdict g day sig =
      if pin_mismatch platform input
      then reject Reason.pin_mismatch
      else if not (anchor_valid platform input)
      then reject Reason.anchor_invalid
      else elim (anchor_key platform input) [
        | none ↦ reject Reason.anchor_invalid
        | some key ↦
            if not (g.subject_user_id === input.anchor.creator_user_id)
              || not (g.grantor_user_id === input.anchor.creator_user_id)
            then reject Reason.root_not_self_signed
            else if not (is_admin g.granted_role)
            then reject Reason.root_not_admin
            else if not (or_empty g.grantor_grant_ref === [])
            then reject Reason.root_has_predecessor
            else elim (input.key_histories input.anchor.creator_user_id) [
              | none ↦ reject (Reason.no_history Party.creator)
              | some history ↦
                  if not (any (λ k. bytes_equal k key) (keys_on_day platform history day))
                  then reject Reason.anchor_key_not_held
                  else if not (verify platform key SigningContext.role_grant (grant_payload g) sig)
                  then reject Reason.root_signature_invalid
                  else valid
            ]
      ]

  -- `computeDesignation`
  unfoldable pub designation_signature : DesignationRecord → ℕ → Bytes → GrantVerdict
  designation_signature d day sig = signature_verdict Party.admin d.admin_user_id (λ history.
      signed_on_day platform history day SigningContext.successor_designation
        (successor_designation_payload platform input.group_id d.admin_user_id
          (or_empty d.successor_user_id) (days d.period_days) d.sort_key d.admin_grant_ref)
        sig)

  -- The loop over the admin's grants, and what follows it.
  unfoldable pub admin_chain :
      (GrantRecord → Option GrantVerdict) → DesignationRecord → ℕ → Bytes → Option GrantVerdict
  admin_chain rec d day sig =
      scan (body_admin day) (grants_to d.admin_user_id input.grants) nothing_yet
      >>= judge rec Party.admin is_admin d.admin_grant_ref (designation_signature d day sig)

  unfoldable pub compute_designation :
      (GrantRecord → Option GrantVerdict) → DesignationRecord → Option GrantVerdict
  compute_designation rec d =
      if duplicated_designation d.sort_key (served_designations platform input)
      then some (reject Reason.duplicate_designation)
      else elim (parse_designation_key platform d.sort_key) [
        | none ↦ some (reject Reason.malformed_designation_key)
        | some parsed ↦
            if not (parsed.subject === d.admin_user_id)
            then some (reject Reason.designation_admin_mismatch)
            else if not (period_in_range d.period_days)
            then some (reject Reason.period_out_of_range)
            else elim (decode platform (some d.signature)) [
              | none ↦ some (reject Reason.malformed_designation_signature)
              | some sig ↦
                  if d.admin_grant_ref === []
                  then some (reject Reason.no_admin_grant_ref)
                  else admin_chain rec d parsed.day sig
            ]
      ]

  -- Whether a day lies from the designation's day up to the claim's.
  abbrev pub in_window : ℕ → ℕ → Option ParsedKey → Bool
  in_window from to none = false
  in_window from to (some p) = leb from p.day && leb p.day to

  unfoldable pub claim_dated_ahead : ℕ → Bool
  claim_dated_ahead day = elim input.now [
    | none ↦ false
    | some now ↦ ltb (now + claim_day_skew_tolerance_ms) day
  ]

  unfoldable pub designated_again : DesignationRecord → ℕ → ℕ → Bool
  designated_again d from to =
      any
        (λ other.
          not (other.sort_key === d.sort_key)
          && in_window from to (parse_designation_key platform other.sort_key))
        (designations_by d.admin_user_id (served_designations platform input))

  unfoldable pub role_changed_since : DesignationRecord → ℕ → ℕ → Bool
  role_changed_since d from to =
      any (λ other. in_window from to (parse_sort_key platform other.sort_key))
        (grants_to d.admin_user_id input.grants)

  -- `verifyClaim`, from the point where the designation is known to verify.
  unfoldable pub claim_verdict : GrantRecord → Text → DesignationRecord → ℕ → Bytes → GrantVerdict
  unfolding claim_dated_ahead designated_again role_changed_since
  claim_verdict g designation_key d day sig =
      if not (names d.successor_user_id g.subject_user_id)
      then reject Reason.names_someone_else
      else if not (g.grantor_user_id === d.admin_user_id)
      then reject Reason.names_different_admin
      else if not (or_empty g.grantor_grant_ref === d.admin_grant_ref)
      then reject Reason.cites_different_grant
      else elim (parse_designation_key platform d.sort_key) [
        | none ↦ reject Reason.malformed_designation_key
        | some d_parsed ↦
            if ltb day (d_parsed.day + days d.period_days * day_ms)
            then reject Reason.period_not_elapsed
            else if claim_dated_ahead day
            then reject Reason.claim_in_future
            else if designated_again d d_parsed.day day
            then reject Reason.admin_designated_again
            else if role_changed_since d d_parsed.day day
            then reject Reason.admin_role_changed
            else signature_verdict Party.successor g.subject_user_id (λ history.
              signed_on_day platform history day SigningContext.successor_claim
                (successor_claim_payload platform input.group_id g.subject_user_id designation_key
                  g.sort_key)
                sig)
      ]
