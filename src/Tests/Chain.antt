-- ===== src/Tests/Chain.antt =====
-- The role chain on a group's rows.
use undergroundbb.Grant.Backed.{check_member_role_sound, IsBacked}
use undergroundbb.Grant.Authority.{no_self_promotion, valid_has-IsRoot, bad_anchor_rejects_all}
use undergroundbb.Grant.Sound.{verify_one_sound}
use undergroundbb.Grant.Roles.{verified, judge_roster, body_roster, check_member_role}
use undergroundbb.Grant.Depth.Hops.{rank}
use undergroundbb.Grant.Depth.Total.{verify_grant_chain_total}
use undergroundbb.Grant.Rules.{IsRoot, Justified}
use undergroundbb.Wire.Compare.{bytes_equal}
use undergroundbb.Wire.Signature.{contextualize, verify}
use undergroundbb.Grant.Scan.{scan, nothing_yet, grants_to, counted}
use undergroundbb.Grant.Keys.{day_ms, signed_on_day, keys_on_day}
use undergroundbb.Wire.Encoding.{base64_to_bytes, decode}
use undergroundbb.Grant.SortKey.{
  ParsedKey, tagged_key, random_suffix, exactly, day_prefix, after, parse_designation_key,
  parse_sort_key,
}
use undergroundbb.Base.{
  subst, ◌∙◌, arith, ◌<◌, ◌*◌, sym, ◌≤◌, first, later, inl, In, ◌∷◌, codes, ◌⊎◌, ◌≢◌, [], ◌+◌, true,
  any, keep, refl, some, ◌≡◌, ◌===◌,
}
use undergroundbb.Tests.Toy.{
  alice, designation, carol, bob_admin, root_grant, bob_key, bob_down, bob, histories, toy, story,
  carol_claim,
}
use undergroundbb.Grant.Records.{
  DesignationRecord, PinnedAnchor, GrantRecord, GrantChainInput, valid,
}
use undergroundbb.Grant.Verify.{
  or_empty, verdicts, verify_grant_chain, verdict_of, GrantChainResult, pin_mismatch, pin_matched,
  anchor_valid, anchor_key, is_self_demotion, root_verdict, grant_payload, signature_verdict, judge,
  designation_signature, designations_by, role_changed_since, designated_again, claim_verdict,
  claim_dated_ahead, body_signer, body_grantor, body_admin, admin_chain, verify_self_demotion,
  verify_by_grantor, grant_signature, period_in_range, duplicated_designation, compute_designation,
  served_designations, last_of, designation_at, cites, citing, verify_claim, compute_signed,
  is_role, duplicated, compute, verify_one,
}

claim_valid : verify_one toy story 4 carol_claim ≡ some valid
unfolding verify_one toy story histories compute duplicated keep ◌===◌ parse_sort_key is_role any
    decode compute_signed verify_claim citing cites designation_at last_of served_designations
    compute_designation duplicated_designation parse_designation_key period_in_range keys_on_day
    signed_on_day counted grants_to nothing_yet scan after day_prefix exactly random_suffix
    tagged_key grant_signature verify_by_grantor verify_self_demotion admin_chain body_admin
    body_grantor body_signer claim_dated_ahead claim_verdict designated_again role_changed_since
    designations_by designation_signature judge signature_verdict grant_payload root_verdict
    is_self_demotion pin_mismatch pin_matched anchor_valid anchor_key verify contextualize
    bytes_equal base64_to_bytes
claim_valid = refl

demotion_valid : verify_one toy story 4 bob_down ≡ some valid
unfolding verify_one toy story histories compute duplicated keep ◌===◌ parse_sort_key is_role any
    decode compute_signed verify_claim citing cites designation_at last_of served_designations
    compute_designation duplicated_designation parse_designation_key period_in_range keys_on_day
    signed_on_day counted grants_to nothing_yet scan after day_prefix exactly random_suffix
    tagged_key grant_signature verify_by_grantor verify_self_demotion admin_chain body_admin
    body_grantor body_signer claim_dated_ahead claim_verdict designated_again role_changed_since
    designations_by designation_signature judge signature_verdict grant_payload root_verdict
    is_self_demotion pin_mismatch pin_matched anchor_valid anchor_key verify contextualize
    bytes_equal base64_to_bytes
demotion_valid = refl

unpinned : GrantChainInput → PinnedAnchor → GrantChainInput
unpinned input pin = record input { pinned_anchor = some pin }

other_pin : PinnedAnchor
other_pin = record { creator_user_id = bob; creator_signing_public_key = bob_key }

mismatch : pin_mismatch toy (unpinned story other_pin) ≡ true
unfolding verify_one toy story histories compute duplicated keep ◌===◌ parse_sort_key is_role any
    decode compute_signed verify_claim citing cites designation_at last_of served_designations
    compute_designation duplicated_designation parse_designation_key period_in_range keys_on_day
    signed_on_day counted grants_to nothing_yet scan after day_prefix exactly random_suffix
    tagged_key grant_signature verify_by_grantor verify_self_demotion admin_chain body_admin
    body_grantor body_signer claim_dated_ahead claim_verdict designated_again role_changed_since
    designations_by designation_signature judge signature_verdict grant_payload root_verdict
    is_self_demotion pin_mismatch pin_matched anchor_valid anchor_key verify contextualize
    bytes_equal base64_to_bytes unpinned other_pin
mismatch = refl

verify_one_sound_example : Justified toy story carol_claim
verify_one_sound_example = verify_one_sound toy story 4 carol_claim claim_valid

valid_has-IsRoot_example : (r : GrantRecord) × IsRoot toy story r
valid_has-IsRoot_example = valid_has-IsRoot toy story 4 carol_claim claim_valid

bad_anchor_rejects_all_example : verify_one toy (unpinned story other_pin) 4 bob_down ≢ some valid
bad_anchor_rejects_all_example =
    bad_anchor_rejects_all toy (unpinned story other_pin) 4 bob_down (inl mismatch)

no_self_promotion_example :
    (bob_down.sort_key ≡ story.anchor.root_grant_sort_key)
    ⊎ (bob_down.granted_role ≡ codes "member")
unfolding story
no_self_promotion_example =
    no_self_promotion toy story 4 bob_down (later (later (first refl))) refl demotion_valid

unfoldable pub story_result : GrantChainResult
story_result = record {
  anchor_valid = anchor_valid toy story;
  anchor_pinned = pin_matched toy story;
  verdicts =
      (root_grant.sort_key, valid)
      ∷ (bob_admin.sort_key, valid)
      ∷ (bob_down.sort_key, valid)
      ∷ (carol_claim.sort_key, valid)
      ∷ [];
  grants = story.grants;
}

pub story_runs : verify_grant_chain toy 4 story ≡ some story_result
unfolding verify_one toy story histories compute duplicated keep ◌===◌ parse_sort_key is_role any
    decode compute_signed verify_claim citing cites designation_at last_of served_designations
    compute_designation duplicated_designation parse_designation_key period_in_range keys_on_day
    signed_on_day counted grants_to nothing_yet scan after day_prefix exactly random_suffix
    tagged_key grant_signature verify_by_grantor verify_self_demotion admin_chain body_admin
    body_grantor body_signer claim_dated_ahead claim_verdict designated_again role_changed_since
    designations_by designation_signature judge signature_verdict grant_payload root_verdict
    is_self_demotion pin_mismatch pin_matched anchor_valid anchor_key verify contextualize
    bytes_equal base64_to_bytes verify_grant_chain verdicts story_result
story_runs = refl

bob_verified : check_member_role toy story_result bob (codes "member") ≡ verified
unfolding verify_one toy story histories compute duplicated keep ◌===◌ parse_sort_key is_role any
    decode compute_signed verify_claim citing cites designation_at last_of served_designations
    compute_designation duplicated_designation parse_designation_key period_in_range keys_on_day
    signed_on_day counted grants_to nothing_yet scan after day_prefix exactly random_suffix
    tagged_key grant_signature verify_by_grantor verify_self_demotion admin_chain body_admin
    body_grantor body_signer claim_dated_ahead claim_verdict designated_again role_changed_since
    designations_by designation_signature judge signature_verdict grant_payload root_verdict
    is_self_demotion pin_mismatch pin_matched anchor_valid anchor_key verify contextualize
    bytes_equal base64_to_bytes story_result verdict_of check_member_role body_roster judge_roster
bob_verified = refl

check_member_role_sound_example :
    ((grants_to bob story.grants ≡ []) × (codes "member" ≡ codes "member"))
    ⊎ ((g : GrantRecord) × IsBacked toy story bob (codes "member") g)
check_member_role_sound_example =
    check_member_role_sound toy 4 story story_result bob (codes "member") story_runs bob_verified

some-inj : {A : Type 0} {x y : A} → some x ≡ some y → x ≡ y
some-inj e = cc

claim_at :
    designation_at (or_empty carol_claim.via_designation) (served_designations toy story)
    ≡ some designation
unfolding verify_one toy story histories compute duplicated keep ◌===◌ parse_sort_key is_role any
    decode compute_signed verify_claim citing cites designation_at last_of served_designations
    compute_designation duplicated_designation parse_designation_key period_in_range keys_on_day
    signed_on_day counted grants_to nothing_yet scan after day_prefix exactly random_suffix
    tagged_key grant_signature verify_by_grantor verify_self_demotion admin_chain body_admin
    body_grantor body_signer claim_dated_ahead claim_verdict designated_again role_changed_since
    designations_by designation_signature judge signature_verdict grant_payload root_verdict
    is_self_demotion pin_mismatch pin_matched anchor_valid anchor_key verify contextualize
    bytes_equal base64_to_bytes
claim_at = refl

claim_day :
    parse_sort_key toy carol_claim.sort_key
    ≡ some (record { subject = carol; day = 753026 * day_ms })
unfolding verify_one toy story histories compute duplicated keep ◌===◌ parse_sort_key is_role any
    decode compute_signed verify_claim citing cites designation_at last_of served_designations
    compute_designation duplicated_designation parse_designation_key period_in_range keys_on_day
    signed_on_day counted grants_to nothing_yet scan after day_prefix exactly random_suffix
    tagged_key grant_signature verify_by_grantor verify_self_demotion admin_chain body_admin
    body_grantor body_signer claim_dated_ahead claim_verdict designated_again role_changed_since
    designations_by designation_signature judge signature_verdict grant_payload root_verdict
    is_self_demotion pin_mismatch pin_matched anchor_valid anchor_key verify contextualize
    bytes_equal base64_to_bytes
claim_day = refl

designation_day :
    parse_designation_key toy designation.sort_key
    ≡ some (record { subject = alice; day = 752991 * day_ms })
unfolding verify_one toy story histories compute duplicated keep ◌===◌ parse_sort_key is_role any
    decode compute_signed verify_claim citing cites designation_at last_of served_designations
    compute_designation duplicated_designation parse_designation_key period_in_range keys_on_day
    signed_on_day counted grants_to nothing_yet scan after day_prefix exactly random_suffix
    tagged_key grant_signature verify_by_grantor verify_self_demotion admin_chain body_admin
    body_grantor body_signer claim_dated_ahead claim_verdict designated_again role_changed_since
    designations_by designation_signature judge signature_verdict grant_payload root_verdict
    is_self_demotion pin_mismatch pin_matched anchor_valid anchor_key verify contextualize
    bytes_equal base64_to_bytes
designation_day = refl

claim_follows :
    (d : DesignationRecord) (p q : ParsedKey)
    → designation_at (or_empty carol_claim.via_designation) (served_designations toy story) ≡ some d
    → parse_sort_key toy carol_claim.sort_key ≡ some p
    → parse_designation_key toy d.sort_key ≡ some q
    → q.day ≤ p.day
claim_follows d p q at parses d_parses =
    let same = some-inj (sym claim_at ∙ at) in
    let is_p = some-inj (sym claim_day ∙ parses) in
    let is_q = some-inj (
      sym designation_day
      ∙ subst (λ r. parse_designation_key toy r.sort_key ≡ some q) (sym same) d_parses) in
    rw (← is_p, ← is_q) (omega arith)

claims_follow :
    (g : GrantRecord) (d : DesignationRecord) (p q : ParsedKey)
    → In g story.grants
    → or_empty g.via_designation ≢ []
    → designation_at (or_empty g.via_designation) (served_designations toy story) ≡ some d
    → parse_sort_key toy g.sort_key ≡ some p
    → parse_designation_key toy d.sort_key ≡ some q
    → q.day ≤ p.day
unfolding story
claims_follow g d p q (first e) via at parses d_parses = absurd (via (rw e refl))
claims_follow g d p q (later (first e)) via at parses d_parses = absurd (via (rw e refl))
claims_follow g d p q (later (later (first e))) via at parses d_parses = absurd (via (rw e refl))
claims_follow g d p q (later (later (later (first e)))) via at parses d_parses =
    claim_follows d p q (rw e at at) (rw e at parses) d_parses
claims_follow g d p q (later (later (later (later m)))) via at parses d_parses = elim m [ ]

rank_bounds :
    (rank toy story root_grant ≡ 2 * (752960 * day_ms) + 1)
    × (rank toy story bob_admin ≡ 2 * (752961 * day_ms) + 1)
    × (rank toy story bob_down ≡ 2 * (752962 * day_ms))
    × (rank toy story carol_claim ≡ 2 * (753026 * day_ms) + 1)
unfolding rank verify_one toy story histories compute duplicated keep ◌===◌ parse_sort_key is_role
    any decode compute_signed verify_claim citing cites designation_at last_of served_designations
    compute_designation duplicated_designation parse_designation_key period_in_range keys_on_day
    signed_on_day counted grants_to nothing_yet scan after day_prefix exactly random_suffix
    tagged_key grant_signature verify_by_grantor verify_self_demotion admin_chain body_admin
    body_grantor body_signer claim_dated_ahead claim_verdict designated_again role_changed_since
    designations_by designation_signature judge signature_verdict grant_payload root_verdict
    is_self_demotion pin_mismatch pin_matched anchor_valid anchor_key verify contextualize
    bytes_equal base64_to_bytes
rank_bounds = (refl, refl, refl, refl)

ranks : (g : GrantRecord) → In g story.grants → rank toy story g < 200000000000000
unfolding story
ranks g (first e) = rw e (omega (arith, rank_bounds.0))
ranks g (later (first e)) = rw e (omega (arith, rank_bounds.1))
ranks g (later (later (first e))) = rw e (omega (arith, rank_bounds.2))
ranks g (later (later (later (first e)))) = rw e (omega (arith, rank_bounds.3))
ranks g (later (later (later (later m)))) = elim m [ ]

verify_grant_chain_total_example :
    (r : GrantChainResult) × (verify_grant_chain toy 200000000000000 story ≡ some r)
verify_grant_chain_total_example =
    verify_grant_chain_total toy story (record { in_order = claims_follow }) 200000000000000 ranks
