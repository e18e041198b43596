-- ===== src/Grant/Circular.antt =====
-- Rows on which the recursion of `verifyGrantChain` does not end. The source has no guard against a
-- cycle, since each hop is meant to go to an earlier day; but a claim leads to its designation before
-- anything compares their days, so a designation dated after the claim leads forward again. Nothing
-- on the way reads a signature, so a server can make such rows without any key.
use undergroundbb.Wire.Encoding.{decode}
use undergroundbb.Grant.Verify.{
  verify_claim, or_empty, verdicts, is_admin, compute_signed, verify_one, verify_grant_chain,
  verify_by_grantor, served_designations, is_role, compute_designation, compute, period_in_range,
  last_of, judge, cites, body_grantor, body_admin, duplicated_designation, duplicated,
  designation_at, citing, admin_chain,
}
use undergroundbb.Grant.Scan.{nothing_yet, counted, Latest, scan, grants_to}
use undergroundbb.Grant.SortKey.{parse_designation_key, parse_sort_key}
use undergroundbb.Grant.Records.{
  Party, GrantVerdict, DesignationRecord, GrantRecord, GrantChainInput,
}
use undergroundbb.Platform.{Platform}
use undergroundbb.Base.{
  ap, any, ltb, ◌∙◌, inr, codes, sym, inl, Option, keep, Bytes, Bool-cases, ===_iff, ◌∷◌, ◌===◌,
  some, List, ℕ, zero, suc, ◌<◌, ◌≡◌, ◌≢◌, refl, [], none, Bool, true, false, arith, Text,
}

module _ (platform : Platform) (input : GrantChainInput) where
  -- A row with a sort key for its subject on the day, and a signature that decodes.
  pub record IsReadable (g : GrantRecord) (day : ℕ) : Type 0 where
    pub parses :
        parse_sort_key platform g.sort_key
        ≡ some (record { subject = g.subject_user_id; day = day })
    pub sig : Bytes
    pub decodes : decode platform (some g.signature) ≡ some sig
    pub admin : g.granted_role ≡ codes "admin"

  -- A claim of day `c` on a designation of the later day `t`, whose admin was made admin on a day in
  -- between, by the very user who claims.
  pub record IsCircular (claim grant : GrantRecord) (d : DesignationRecord) (c k t : ℕ)
      : Type 0 where
    pub grants : input.grants ≡ claim ∷ grant ∷ []
    pub designations : input.designations ≡ some (d ∷ [])
    pub claim_readable : IsReadable claim c
    pub grant_readable : IsReadable grant k
    pub d_parses :
        parse_designation_key platform d.sort_key
        ≡ some (record { subject = d.admin_user_id; day = t })
    pub d_sig : Bytes
    pub d_decodes : decode platform (some d.signature) ≡ some d_sig
    pub d_period : period_in_range d.period_days ≡ true
    pub days_in_order : (c < k) × (k < t)
    pub keys_differ : claim.sort_key ≢ grant.sort_key
    pub via : claim.via_designation ≡ some d.sort_key
    pub d_key_written : d.sort_key ≢ []
    pub no_via : grant.via_designation ≡ none
    pub not_root : grant.sort_key ≢ input.anchor.root_grant_sort_key
    pub to_admin : grant.subject_user_id ≡ d.admin_user_id
    pub by_claimant : grant.grantor_user_id ≡ claim.subject_user_id
    pub claimant_other : claim.subject_user_id ≢ d.admin_user_id
    pub admin_ref : d.admin_grant_ref ≡ grant.sort_key
    pub grant_key_written : grant.sort_key ≢ []
    pub claim_key_written : claim.sort_key ≢ []
    pub grantor_ref : grant.grantor_grant_ref ≡ some claim.sort_key

  module _ {claim grant : GrantRecord} {d : DesignationRecord} {c k t : ℕ}
      (h : IsCircular claim grant d c k t) where
    abbrev rows : List GrantRecord
    rows = claim ∷ grant ∷ []

    differ : (x y : Text) → x ≢ y → (x === y) ≡ false
    differ x y ne = elim (Bool-cases (x === y)) [
      | inl e ↦ absurd (ne ((===_iff x y).0 e))
      | inr e ↦ e
    ]

    same : (x y : Text) → x ≡ y → (x === y) ≡ true
    same x y e = (===_iff x y).1 e

    claim_unique : duplicated claim.sort_key input.grants ≡ false
    unfolding duplicated keep
    claim_unique = rw h.grants (
        ground (
          arith,
          same claim.sort_key claim.sort_key refl,
          differ grant.sort_key claim.sort_key (λ e. h.keys_differ (sym e)),
        ))

    grant_unique : duplicated grant.sort_key input.grants ≡ false
    unfolding duplicated keep
    grant_unique = rw h.grants (
        ground (
          arith,
          same grant.sort_key grant.sort_key refl,
          differ claim.sort_key grant.sort_key h.keys_differ,
        ))

    admin_rows : grants_to d.admin_user_id input.grants ≡ grant ∷ []
    unfolding grants_to keep
    admin_rows = rw h.grants (
        ground (
          arith,
          same grant.subject_user_id d.admin_user_id h.to_admin,
          differ claim.subject_user_id d.admin_user_id h.claimant_other,
        ))

    claimant_rows : grants_to grant.grantor_user_id input.grants ≡ claim ∷ []
    unfolding grants_to keep
    claimant_rows = rw h.grants (
        ground (
          arith,
          same claim.subject_user_id grant.grantor_user_id (sym h.by_claimant),
          differ grant.subject_user_id grant.grantor_user_id
              (λ e. h.claimant_other (sym h.by_claimant ∙ sym e ∙ h.to_admin)),
        ))

    one_citation : ltb 1 (citing d.sort_key input.grants) ≡ false
    unfolding citing cites keep
    one_citation = rw h.grants (ground (arith, h.via, h.no_via))

    served : designation_at d.sort_key (served_designations platform input) ≡ some d
    unfolding designation_at last_of keep served_designations
    served = rw h.designations (ground (arith, same d.sort_key d.sort_key refl))

    d_unique : duplicated_designation d.sort_key (served_designations platform input) ≡ false
    unfolding duplicated_designation keep served_designations
    d_unique = rw h.designations (ground (arith, same d.sort_key d.sort_key refl))

    abbrev one_latest : GrantRecord → ℕ → Latest
    one_latest g day = record { day = some day; grants = g ∷ [] }

    admin_scan :
        scan (body_admin platform input t) (grants_to d.admin_user_id input.grants) nothing_yet
        ≡ some (some (one_latest grant k))
    unfolding scan body_admin counted nothing_yet
    admin_scan = rw admin_rows (ground (arith, h.grant_readable.parses, h.days_in_order.1))

    grantor_scan :
        (rec : GrantRecord → Option GrantVerdict)
        → scan
            (body_grantor platform input rec k)
            (grants_to grant.grantor_user_id input.grants)
            nothing_yet
          ≡ some (some (one_latest claim c))
    unfolding scan body_grantor counted nothing_yet
    grantor_scan rec = rw claimant_rows (ground (arith, h.claim_readable.parses, h.days_in_order.0))

    judge_overflows :
        (rec : GrantRecord → Option GrantVerdict) (who : Party) (role_fits : Text → Bool)
        (ref : Text) (signature : GrantVerdict) (g : GrantRecord) (day : ℕ)
        → (ref === g.sort_key) ≡ true
        → role_fits g.granted_role ≡ true
        → rec g ≡ none
        → judge platform input rec who role_fits ref signature (some (one_latest g day)) ≡ none
    unfolding judge
    judge_overflows rec who role_fits ref signature g day cited fits e = ground arith

    admin_chain_overflows :
        (rec : GrantRecord → Option GrantVerdict)
        → rec grant ≡ none
        → admin_chain platform input rec d t h.d_sig ≡ none
    unfolding admin_chain
    admin_chain_overflows rec e = rw admin_scan (
        judge_overflows rec Party.admin is_admin d.admin_grant_ref _ grant k
          (same d.admin_grant_ref grant.sort_key h.admin_ref)
          (same grant.granted_role (codes "admin") h.grant_readable.admin) e)

    designation_overflows :
        (rec : GrantRecord → Option GrantVerdict)
        → rec grant ≡ none
        → compute_designation platform input rec d ≡ none
    unfolding compute_designation
    designation_overflows rec e = ground (
      arith,
      d_unique,
      h.d_parses,
      same d.admin_user_id d.admin_user_id refl,
      h.d_period,
      h.d_decodes,
      differ d.admin_grant_ref [] (λ p. h.grant_key_written (sym h.admin_ref ∙ p)),
      admin_chain_overflows rec e,
    )

    grantor_overflows :
        (rec : GrantRecord → Option GrantVerdict) (sig : Bytes)
        → rec claim ≡ none
        → verify_by_grantor platform input rec grant k sig ≡ none
    unfolding verify_by_grantor
    grantor_overflows rec sig e = rw (grantor_scan rec) (
        judge_overflows rec Party.grantor is_admin (or_empty grant.grantor_grant_ref) _ claim c
          (same (or_empty grant.grantor_grant_ref) claim.sort_key (ap or_empty h.grantor_ref))
          (same claim.granted_role (codes "admin") h.claim_readable.admin) e)

    admin_is_role : is_role (codes "admin") ≡ true
    unfolding is_role any ◌===◌
    admin_is_role = refl

    claim_overflows :
        (rec : GrantRecord → Option GrantVerdict)
        → rec grant ≡ none
        → compute platform input rec claim ≡ none
    unfolding compute compute_signed verify_claim
    claim_overflows rec e = ground (
      arith,
      claim_unique,
      h.claim_readable.parses,
      same claim.subject_user_id claim.subject_user_id refl,
      h.claim_readable.decodes,
      h.claim_readable.admin,
      admin_is_role,
      h.via,
      differ d.sort_key [] h.d_key_written,
      same claim.granted_role (codes "admin") h.claim_readable.admin,
      one_citation,
      served,
      designation_overflows rec e,
    )

    grant_overflows :
        (rec : GrantRecord → Option GrantVerdict)
        → rec claim ≡ none
        → compute platform input rec grant ≡ none
    unfolding compute compute_signed
    grant_overflows rec e = ground (
      arith,
      grant_unique,
      h.grant_readable.parses,
      same grant.subject_user_id grant.subject_user_id refl,
      h.grant_readable.decodes,
      h.grant_readable.admin,
      admin_is_role,
      h.no_via,
      same [] [] refl,
      differ grant.sort_key input.anchor.root_grant_sort_key h.not_root,
      h.grantor_ref,
      differ claim.sort_key [] h.claim_key_written,
      differ grant.grantor_user_id grant.subject_user_id
          (λ p. h.claimant_other (sym h.by_claimant ∙ p ∙ h.to_admin)),
      grantor_overflows rec h.grant_readable.sig e,
    )

    both_overflow :
        (depth : ℕ)
        → (verify_one platform input depth claim ≡ none)
          × (verify_one platform input depth grant ≡ none)
    unfolding verify_one
    both_overflow zero = (refl, refl)
    both_overflow (suc depth) = (
      claim_overflows (verify_one platform input depth) (both_overflow depth).1,
      grant_overflows (verify_one platform input depth) (both_overflow depth).0,
    )

-- On such rows the verifier gives no result within any depth: in the source the stack overflows, and
-- the exception leaves `verifyGrantChain`, for every anchor, group, clock and key history.
pub circular_rows_overflow :
    (platform : Platform) (input : GrantChainInput) (claim grant : GrantRecord)
    (d : DesignationRecord) (c k t : ℕ)
    → IsCircular platform input claim grant d c k t
    → (depth : ℕ) → verify_grant_chain platform depth input ≡ none
unfolding verify_grant_chain verdicts
circular_rows_overflow platform input claim grant d c k t h depth =
    let first_overflows = (both_overflow platform input h depth).0 in
    simp h.grants (rw first_overflows refl)
