-- ===== src/Admission/Sound.antt =====
-- What an admission that `verifyAdmission` accepts rests on.
use undergroundbb.History.Roster.{decode_sized}
use undergroundbb.Base.{
  if◌then◌else◌, ℕ, ◌≤◌, ◌≡◌, ◌≢◌, refl, subst, ◌⊎◌, inl, inr, Bool, true, false, not, List, [],
  ◌∷◌, Option, none, some, arith, Text, Bytes, codes, In, first, later, Bool-cases, Option-cases,
  ◌===◌, ===_iff, ltb, any, find, find-In, any-In,
}
use undergroundbb.Platform.{Platform}
use undergroundbb.Wire.Compare.{bytes_equal, bytes_equal_iff}
use undergroundbb.Wire.Signature.{SigningContext, verify}
use undergroundbb.Grant.Records.{
  GrantRecord, GrantChainInput, GrantVerdict, UserKeyHistory, valid, reject,
}
use undergroundbb.Grant.SortKey.{parse_sort_key}
use undergroundbb.Grant.Keys.{signed_on_day, keys_on_day}
use undergroundbb.Grant.Scan.{grants_to}
use undergroundbb.Grant.Verify.{verify_grant_chain, verdict_of}
use undergroundbb.Grant.Rules.{Justified, IsDated}
use undergroundbb.Grant.Authority.{grants_to-In}
use undergroundbb.Grant.Backed.{chain_row-Justified}
use undergroundbb.Admission.Verify.{
  judge_found, VerifyAdmissionInput, AdmissionVerdict, AdmissionReason, DecodedAdmission, ok,
  refused, verify_admission, judge_admission, judge_inviter, admission_signature, undisturbed,
  carried_to, found_valid, can_invite, payload_of_admission, decode_admission, day_start,
}

module _ (platform : Platform) (input : VerifyAdmissionInput) where
  -- Some key that the inviter held on the day signed the admission.
  pub record IsInviterSigned (k : DecodedAdmission) (day : ℕ) : Type 0 where
    pub history : UserKeyHistory
    pub known : input.inviter_history ≡ some history
    pub key : Bytes
    pub held : In key (keys_on_day platform history day)
    pub verifies :
        verify platform key SigningContext.admission (payload_of_admission platform input k) k.sig
        ≡ true

  -- The inviter's grant that the admission names, and what it entitles the inviter to.
  pub record IsEntitled (chain_input : GrantChainInput) (ref : GrantRecord) (day : ℕ) : Type 0 where
    pub listed : In ref (grants_to input.admission_record.inviter_user_id input.chain.grants)
    pub named : ref.sort_key ≡ input.admission_record.inviter_grant_ref
    pub inviting : (ref.granted_role ≡ codes "admin") ⊎ (ref.granted_role ≡ codes "ambassador")
    pub justified : Justified platform chain_input ref
    pub from : ℕ
    pub dated : IsDated platform chain_input ref from
    pub not_later : from ≤ day
    pub unchanged :
        (o : GrantRecord) (d : ℕ)
        → In o (grants_to input.admission_record.inviter_user_id input.chain.grants)
        → IsDated platform chain_input o d
        → o.sort_key ≢ ref.sort_key
        → from ≤ d
        → ¬ (d ≤ day)

  pub record IsAdmitted (chain_input : GrantChainInput) : Type 0 where
    pub keys : DecodedAdmission
    pub decoded : decode_admission platform input.admission_record ≡ some keys
    pub day : ℕ
    pub on_day : day_start platform input.admission_record.day ≡ some day
    pub signing_key_served : In keys.ed input.invitee_signing_keys
    pub wrapping_key_carried :
        carried_to platform input keys (decode_sized platform 32 input.invitee_wrapping_key) ≡ true
    pub ref : GrantRecord
    pub entitled : IsEntitled chain_input ref day
    pub signed : IsInviterSigned keys day

  signature_ok :
      (k : DecodedAdmission) (day : ℕ)
      → admission_signature platform input k day ≡ ok
      → IsInviterSigned k day
  unfolding admission_signature signed_on_day
  signature_ok k day e = elim (Option-cases input.inviter_history) [
    | inl no_keys ↦ absurd (ground (arith, no_keys, e))
    | inr (history, known) ↦
        let good : signed_on_day platform history day SigningContext.admission
              (payload_of_admission platform input k) k.sig
            ≡ true =
          ground (arith, known, e) in
        let (key, held, verifies) =
          any-In
            (λ key.
              verify platform key SigningContext.admission (payload_of_admission platform input k)
                k.sig)
            (keys_on_day platform history day) good in
        record { history = history; known = known; key = key; held = held; verifies = verifies }
  ]

  undisturbed_rest :
      (ref : Text) (from day : ℕ) (g : GrantRecord) (gs : List GrantRecord)
      → undisturbed platform input ref from day (g ∷ gs) ≡ none
      → undisturbed platform input ref from day gs ≡ none
  unfolding undisturbed
  undisturbed_rest ref from day g gs e = elim (Bool-cases (g.sort_key === ref)) [
    | inl own ↦ ground (arith, own, e)
    | inr other ↦ elim (Option-cases (parse_sort_key platform g.sort_key)) [
      | inl malformed ↦ absurd (ground (arith, other, malformed, e))
      | inr (p, parses) ↦ ground (arith, other, parses, e)
    ]
  ]

  undisturbed_sound :
      (chain_input : GrantChainInput) (ref : Text) (from day : ℕ) (gs : List GrantRecord)
      → undisturbed platform input ref from day gs ≡ none
      → (o : GrantRecord) (d : ℕ) → In o gs
      → IsDated platform chain_input o d
      → o.sort_key ≢ ref
      → from ≤ d
      → ¬ (d ≤ day)
  unfolding undisturbed
  undisturbed_sound chain_input ref from day [] e o d m dated other lo hi = elim m [ ]
  undisturbed_sound chain_input ref from day (g ∷ gs) e o d (later m) dated other lo hi =
      undisturbed_sound chain_input ref from day gs (undisturbed_rest ref from day g gs e) o d m
        dated other lo hi
  undisturbed_sound chain_input ref from day (g ∷ gs) e o d (first same) dated other lo hi =
      elim (Bool-cases (o.sort_key === ref)) [
        | inl own ↦ other ((===_iff o.sort_key ref).0 own)
        | inr differs ↦
            let here : undisturbed platform input ref from day (o ∷ gs) ≡ none = rw same e in
            absurd (ground (arith, differs, dated.parses, dated.is_day, lo, hi, here))
      ]

  found_valid_sound : (v : Option GrantVerdict) → found_valid v ≡ true → v ≡ some valid
  unfolding found_valid
  found_valid_sound none e = cc
  found_valid_sound (some valid) e = refl
  found_valid_sound (some (reject why)) e = cc

  can_invite_sound :
      (role : Text) → can_invite role ≡ true → (role ≡ codes "admin") ⊎ (role ≡ codes "ambassador")
  can_invite_sound role e = elim (Bool-cases (role === codes "admin")) [
    | inl admin ↦ inl ((===_iff role (codes "admin")).0 admin)
    | inr other ↦
        let rest : (role === codes "ambassador") ≡ true = ground (arith, other, e) in
        inr ((===_iff role (codes "ambassador")).0 rest)
  ]

  passed :
      (b : Bool) (why : AdmissionReason) (v : AdmissionVerdict)
      → (if not b then refused why else v) ≡ ok
      → (b ≡ true) × (v ≡ ok)
  passed true why v e = (refl, e)
  passed false why v e = cc

  judge_inviter_sound :
      (chain_input : GrantChainInput) (depth : ℕ) (k : DecodedAdmission) (day : ℕ)
      (ref : GrantRecord)
      → verify_grant_chain platform depth chain_input ≡ some input.chain
      → In ref (grants_to input.admission_record.inviter_user_id input.chain.grants)
      → ref.sort_key ≡ input.admission_record.inviter_grant_ref
      → judge_inviter platform input k day ref ≡ ok
      → IsEntitled chain_input ref day × IsInviterSigned k day
  unfolding judge_inviter
  judge_inviter_sound chain_input depth k day ref ran m named e =
      let (inviting, e1) = passed (can_invite ref.granted_role) _ _ e in
      let (is_valid, e2) =
        passed (found_valid (verdict_of ref.sort_key input.chain.verdicts)) _ _ e1 in
      elim (Option-cases (parse_sort_key platform ref.sort_key)) [
        | inl malformed ↦ absurd (ground (arith, malformed, e2))
        | inr (p, parses) ↦ elim (Bool-cases (ltb day p.day)) [
          | inl late ↦ absurd (ground (arith, parses, late, e2))
          | inr timely ↦
              elim (Option-cases (
                undisturbed platform input ref.sort_key p.day day
                  (grants_to input.admission_record.inviter_user_id input.chain.grants))) [
                    | inr (why, changed) ↦ absurd (ground (arith, parses, timely, changed, e2))
                    | inl unchanged ↦ (
                      record {
                        listed = m;
                        named = named;
                        inviting = can_invite_sound ref.granted_role inviting;
                        justified =
                            chain_row-Justified platform depth chain_input input.chain ref ran
                              (grants_to-In input.admission_record.inviter_user_id
                                input.chain.grants m)
                              (found_valid_sound _ is_valid);
                        from = p.day;
                        dated = record { key = p; parses = parses; is_day = refl };
                        not_later = ground (arith, timely);
                        unchanged =
                            undisturbed_sound chain_input ref.sort_key p.day day
                              (grants_to input.admission_record.inviter_user_id input.chain.grants)
                              unchanged;
                      },
                      signature_ok k day (ground (arith, parses, timely, unchanged, e2)),
                    )
                  ]
        ]
      ]

  grant_found :
      (k : DecodedAdmission) (day : ℕ)
      → judge_found platform input k day (
          find
            (λ g. g.sort_key === input.admission_record.inviter_grant_ref)
            (grants_to input.admission_record.inviter_user_id input.chain.grants))
        ≡ ok
      → (ref : GrantRecord) × (find
            (λ g. g.sort_key === input.admission_record.inviter_grant_ref)
            (grants_to input.admission_record.inviter_user_id input.chain.grants)
          ≡ some ref)
        × (judge_inviter platform input k day ref ≡ ok)
  unfolding judge_found
  grant_found k day e =
      elim (Option-cases (
        find (λ g. g.sort_key === input.admission_record.inviter_grant_ref)
          (grants_to input.admission_record.inviter_user_id input.chain.grants))) [
            | inl none_found ↦ absurd (ground (arith, none_found, e))
            | inr (ref, found) ↦ (ref, found, ground (arith, found, e))
          ]

  -- Where the chain is the verifier's result, an admission is accepted only if it is about a signing
  -- key that is served for the invitee, and a wrapping key that is served for them or that their own
  -- chain of rotations carries to the served one; if it names a justified grant of an inviting role
  -- to the inviter, dated on or before the day of the admission, with no other grant to them dated
  -- from then up to that day; and if it is signed by a key that the inviter held on that day.
  pub verify_admission_sound :
      (chain_input : GrantChainInput) (depth : ℕ)
      → verify_grant_chain platform depth chain_input ≡ some input.chain
      → verify_admission platform input ≡ ok
      → IsAdmitted chain_input
  unfolding verify_admission judge_admission
  verify_admission_sound chain_input depth ran e =
      elim (Option-cases (decode_admission platform input.admission_record)) [
        | inl malformed ↦ absurd (ground (arith, malformed, e))
        | inr (k, decoded) ↦ elim (Option-cases (day_start platform input.admission_record.day)) [
          | inl no_day ↦ absurd (ground (arith, decoded, no_day, e))
          | inr (day, on_day) ↦
              let judged : judge_admission platform input k day ≡ ok =
                ground (arith, decoded, on_day, e) in
              let (served, e1) =
                passed (any (λ s. bytes_equal s k.ed) input.invitee_signing_keys) _ _ judged in
              let (carried, e2) =
                passed
                  (carried_to platform input k
                    (decode_sized platform 32 input.invitee_wrapping_key))
                  _ _ e1 in
              let (ref, found, e3) = grant_found k day e2 in
              let (m, is_named) =
                find-In (λ g. g.sort_key === input.admission_record.inviter_grant_ref)
                  (grants_to input.admission_record.inviter_user_id input.chain.grants) found in
              let (entitled, signed) =
                judge_inviter_sound chain_input depth k day ref ran m
                  ((===_iff ref.sort_key input.admission_record.inviter_grant_ref).0 is_named) e3 in
              let (s, s_in, same) =
                any-In (λ s. bytes_equal s k.ed) input.invitee_signing_keys served in
              record {
                keys = k;
                decoded = decoded;
                day = day;
                on_day = on_day;
                signing_key_served =
                    subst (λ z. In z input.invitee_signing_keys) ((bytes_equal_iff s k.ed).0 same)
                      s_in;
                wrapping_key_carried = carried;
                ref = ref;
                entitled = entitled;
                signed = signed;
              }
        ]
      ]
