-- ===== src/Grant/Sound/Ordinary.antt =====
-- The root, a grant by someone else and a step down: what `valid` says of each.
use undergroundbb.Base.{
  ℕ, ◌≡◌, ◌⊎◌, inl, inr, true, false, [], Option, some, arith, Text, Bytes, codes, ◌===◌, ===_iff,
  In, any, any-In, Option-cases,
}
use undergroundbb.Platform.{Platform}
use undergroundbb.Wire.Compare.{bytes_equal, bytes_equal_iff}
use undergroundbb.Wire.Signature.{SigningContext, verify}
use undergroundbb.Grant.Records.{
  GrantRecord, UserKeyHistory, GrantChainInput, Party, GrantVerdict, valid,
}
use undergroundbb.Grant.Keys.{keys_on_day}
use undergroundbb.Grant.Scan.{grants_to}
use undergroundbb.Grant.Scan.Laws.{Scanned-never_stops}
use undergroundbb.Grant.Verify.{
  or_empty, pin_mismatch, anchor_key, anchor_valid, is_admin, is_elevated, body_grantor,
  body_signer, grant_payload, root_verdict, grant_signature, verify_self_demotion,
  verify_by_grantor,
}
use undergroundbb.Grant.Rules.{IsRow, IsRoot, Justified, granted, demoted}
use undergroundbb.Grant.Current.{
  grantor_note, grantor-Dated, grantor_same_day, signer_note, kept_is_Dated, IsCurrent-scan,
}
use undergroundbb.Grant.Judged.{signature_valid, judged_In, scan-IsJudged}

module _ (platform : Platform) (input : GrantChainInput) where
  -- The recursive calls are sound.
  abbrev pub IsSound : (GrantRecord → Option GrantVerdict) → Type 0
  IsSound rec = (o : GrantRecord) → rec o ≡ some valid → Justified platform input o

  module _ (g : GrantRecord) (day : ℕ) (sig : Bytes) (row : IsRow platform input g day sig) where
    root_held :
        (key : Bytes) (history : UserKeyHistory)
        → any (λ k. bytes_equal k key) (keys_on_day platform history day) ≡ true
        → In key (keys_on_day platform history day)
    root_held key history e =
        let (k, held, same) =
          any-In (λ k. bytes_equal k key) (keys_on_day platform history day) e in
        let same_key : k ≡ key = (bytes_equal_iff k key).0 same in rw same_key at held

    pub IsRoot-sound :
        g.sort_key ≡ input.anchor.root_grant_sort_key
        → root_verdict platform input g day sig ≡ valid
        → IsRoot platform input g
    unfolding root_verdict
    IsRoot-sound is_root e = elim (Option-cases (anchor_key platform input)) [
      | inl no_key ↦ absurd (ground (arith, no_key, e))
      | inr (key, has_key) ↦
          elim (Option-cases (input.key_histories input.anchor.creator_user_id)) [
            | inl no_history ↦ absurd (ground (arith, has_key, no_history, e))
            | inr (history, known) ↦
                let facts : (pin_mismatch platform input ≡ false)
                    × (anchor_valid platform input ≡ true)
                    × ((g.subject_user_id === input.anchor.creator_user_id) ≡ true)
                    × ((g.grantor_user_id === input.anchor.creator_user_id) ≡ true)
                    × ((g.granted_role === codes "admin") ≡ true)
                    × ((or_empty g.grantor_grant_ref === []) ≡ true)
                    × (any (λ k. bytes_equal k key) (keys_on_day platform history day) ≡ true)
                    × (verify platform key SigningContext.role_grant
                          (grant_payload platform input g) sig
                        ≡ true) =
                  ground (arith, has_key, known, e) in
                record {
                  is_root = is_root;
                  no_pin_mismatch = facts.0;
                  anchored = facts.1;
                  by_creator = (===_iff _ _).0 facts.3;
                  to_creator = (===_iff _ _).0 facts.2;
                  admin = (===_iff _ _).0 facts.4;
                  no_predecessor = (===_iff _ _).0 facts.5;
                  day = day;
                  sig = sig;
                  row = row;
                  key = key;
                  is_anchor_key = has_key;
                  history = history;
                  known = known;
                  held = root_held key history facts.6;
                  signed = facts.7;
                }
          ]
    ]

    pub by_grantor_sound :
        (rec : GrantRecord → Option GrantVerdict)
        → IsSound rec
        → (g.grantor_user_id === g.subject_user_id) ≡ false
        → verify_by_grantor platform input rec g day sig ≡ some valid
        → Justified platform input g
    unfolding verify_by_grantor grant_signature
    by_grantor_sound rec sound other e =
        let body = body_grantor platform input rec day in
        let (l, s, j, signed) =
          scan-IsJudged platform input body (grants_to g.grantor_user_id input.grants) rec
            Party.grantor is_admin (or_empty g.grantor_grant_ref)
            (grant_signature platform input Party.grantor g.grantor_user_id g day sig) e in
        granted day
          (record {
            sig = sig;
            row = row;
            by_another = λ same. cc ((===_iff _ _).1 same, other);
            is_current =
                IsCurrent-scan platform input body day (grantor_note platform input rec)
                  (grantor-Dated platform input rec) l j.current s j.only;
            cited = j.cited;
            admin = (===_iff _ _).0 j.fits;
            signed =
                signature_valid platform input Party.grantor g.grantor_user_id day
                  SigningContext.role_grant (grant_payload platform input g) sig signed;
          })
          (λ o m dated. grantor_same_day platform input rec o dated (Scanned-never_stops s m))
          (sound j.current j.own_valid)

    elevated_sound :
        (role : Text)
        → is_elevated role ≡ true
        → (role ≡ codes "admin") ⊎ (role ≡ codes "ambassador")
    elevated_sound role e =
        ground (arith, ===_iff role (codes "admin"), ===_iff role (codes "ambassador"))

    pub self_demotion_sound :
        (rec : GrantRecord → Option GrantVerdict)
        → IsSound rec
        → (g.grantor_user_id === g.subject_user_id) ≡ true
        → (g.granted_role === codes "member") ≡ true
        → verify_self_demotion platform input rec g day sig ≡ some valid
        → Justified platform input g
    unfolding verify_self_demotion grant_signature
    self_demotion_sound rec sound self to_member e =
        let body = body_signer platform input g.sort_key day in
        let (l, s, j, signed) =
          scan-IsJudged platform input body (grants_to g.subject_user_id input.grants) rec
            Party.signer is_elevated (or_empty g.grantor_grant_ref)
            (grant_signature platform input Party.signer g.subject_user_id g day sig) e in
        let kept =
          kept_is_Dated platform input body day (signer_note platform input g.sort_key) s
            (judged_In platform input j) in
        demoted day
          (record {
            sig = sig;
            row = row;
            by_self = (===_iff _ _).0 self;
            to_member = (===_iff _ _).0 to_member;
            listed = kept.4;
            own_day = kept.0;
            dated = kept.2;
            before = kept.3;
            cited = j.cited;
            elevated = elevated_sound j.current.granted_role j.fits;
            signed =
                signature_valid platform input Party.signer g.subject_user_id day
                  SigningContext.role_grant (grant_payload platform input g) sig signed;
          })
          (sound j.current j.own_valid)
