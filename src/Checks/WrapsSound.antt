-- ===== src/Checks/WrapsSound.antt =====
-- What an attested wrap record rests on, and when checking one throws.
use undergroundbb.History.Records.{OwnKeyHistory}
use undergroundbb.Base.{
  ◌∙◌, sym, subst, ap, Bool, ◌≡◌, refl, ◌≢◌, ◌⊎◌, inl, inr, true, false, [], Option, none, some,
  arith, Bytes, codes, Bool-cases, Option-cases, ◌===◌, ===_iff,
}
use undergroundbb.Platform.{Platform}
use undergroundbb.Grant.Records.{Number}
use undergroundbb.Wire.Signature.{SigningContext}
use undergroundbb.History.Build.{build_own_key_history}
use undergroundbb.Checks.Items.{AuthorKeys, is_day_text, signed_under}
use undergroundbb.Checks.Signed.{IsSignedBy, signed_under-IsSignedBy}
use undergroundbb.Checks.Wraps.{
  WireWrapRecord, WrapInput, WrapEvidence, approved, by_self, no_record, invalid, unchecked,
  decode_wrap, wrap_payload, judge_wrap, check_wrapper, check_named, check_wrap_record,
}

-- The wrapper that the record names signed the wrapping of the entry, on a well-formed day.
pub record IsAttested (platform : Platform) (input : WrapInput) (r : WireWrapRecord) : Type 0 where
  pub epoch : Number
  pub at_epoch : input.wrap_epoch ≡ some epoch
  pub wrapper : AuthorKeys
  pub wrapper_keys : input.wrapper ≡ some wrapper
  pub is_day : is_day_text r.day ≡ true
  pub signature : Bytes
  pub current : Bytes
  pub decoded : decode_wrap platform input r wrapper ≡ some (signature, current)
  pub payload : Bytes
  pub is_payload : wrap_payload platform input r epoch ≡ some payload
  pub signed :
      IsSignedBy platform r.wrapper_user_id wrapper.key_changes current r.day
        SigningContext.wrap_record payload signature

-- The evidence that a signed record gives, by its reason: a record of a member's own wrapping names
-- the member, an approval names somebody else.
pub data IsEvidenceOf (input : WrapInput) (r : WireWrapRecord) : WrapEvidence → Type 0 where
  self :
      r.reason ≡ codes "self"
      → r.wrapper_user_id ≡ input.member_user_id
      → IsEvidenceOf input r by_self
  approval :
      r.reason ≡ codes "approval"
      → r.wrapper_user_id ≢ input.member_user_id
      → IsEvidenceOf input r (approved r.wrapper_user_id)

-- The evidence says that somebody wrapped the entry.
unfoldable pub is_attestation : WrapEvidence → Bool
is_attestation (approved w) = true
is_attestation by_self = true
is_attestation no_record = false
is_attestation invalid = false
is_attestation (unchecked why) = false

-- The reason and the names of a record that gets as far as its wrapper's keys.
pub IsNamed : WrapInput → WireWrapRecord → Type 0
IsNamed input r =
    ((r.reason ≡ codes "self") × (r.wrapper_user_id ≡ input.member_user_id))
    ⊎ ((r.reason ≡ codes "approval") × (r.wrapper_user_id ≢ input.member_user_id))

approval_not_self : (codes "approval" === codes "self") ≡ false
unfolding ◌===◌
approval_not_self = refl

judge_wrap_sound :
    (platform : Platform) (input : WrapInput) (r : WireWrapRecord) (signature current : Bytes)
    (history : OwnKeyHistory) (payload : Bytes) (evidence : WrapEvidence)
    → IsNamed input r
    → judge_wrap platform input r signature current history payload ≡ evidence
    → is_attestation evidence ≡ true
    → (signed_under platform history current r.day SigningContext.wrap_record payload signature
        ≡ true)
      × IsEvidenceOf input r evidence
unfolding judge_wrap is_attestation IsNamed
judge_wrap_sound platform input r signature current history payload evidence named e attests =
    elim (Bool-cases
      (signed_under platform history current r.day SigningContext.wrap_record payload signature)) [
        | inr unsigned ↦ absurd (ground (arith, unsigned, e, attests))
        | inl signed ↦ elim named [
          | inl (is_self, same) ↦
              let ends : evidence ≡ by_self =
                ground (arith, signed, e, (===_iff r.reason (codes "self")).1 is_self) in
              (signed, subst (IsEvidenceOf input r) (sym ends) (self is_self same))
          | inr (is_approval, apart) ↦
              let other : (r.reason === codes "self") ≡ false =
                ap (λ x. x === codes "self") is_approval ∙ approval_not_self in
              let ends : evidence ≡ approved r.wrapper_user_id = ground (arith, signed, e, other) in
              (signed, subst (IsEvidenceOf input r) (sym ends) (approval is_approval apart))
        ]
      ]

-- A record with a known reason that names the wrapper as it should, on a well-formed day, is checked
-- against the wrapper's keys; any other is invalid.
pub check_named_cases :
    (platform : Platform) (input : WrapInput) (r : WireWrapRecord) (epoch : Number)
    → (check_named platform input r epoch ≡ some invalid)
      ⊎ (IsNamed input r
          × (is_day_text r.day ≡ true)
          × (check_named platform input r epoch
              ≡ check_wrapper platform input r epoch input.wrapper))
unfolding check_named IsNamed
check_named_cases platform input r epoch =
    let member = ===_iff r.wrapper_user_id input.member_user_id in
    elim (Bool-cases (is_day_text r.day)) [
      | inr bad ↦ inl (ground (arith, bad))
      | inl day ↦ elim (Bool-cases (r.wrapper_user_id === input.member_user_id)) [
        | inl same ↦ elim (Bool-cases (r.reason === codes "self")) [
          | inl is_self ↦ inr (
            inl ((===_iff r.reason (codes "self")).0 is_self, member.0 same),
            day,
            ground (arith, day, same, is_self),
          )
          | inr other ↦ inl (ground (arith, same, other))
        ]
        | inr apart ↦ elim (Bool-cases (r.reason === codes "self")) [
          | inl is_self ↦ inl (ground (arith, apart, is_self))
          | inr other ↦ elim (Bool-cases (r.reason === codes "approval")) [
            | inl is_approval ↦ inr (
              inr (
                (===_iff r.reason (codes "approval")).0 is_approval,
                λ e. cc (apart, member.1 e),
              ),
              day,
              ground (arith, day, apart, is_approval, other),
            )
            | inr neither ↦ inl (ground (arith, other, neither))
          ]
        ]
      ]
    ]

check_wrapper_sound :
    (platform : Platform) (input : WrapInput) (r : WireWrapRecord) (epoch : Number)
    (wrapper : Option AuthorKeys) (evidence : WrapEvidence)
    → input.wrap_epoch ≡ some epoch
    → input.wrapper ≡ wrapper
    → is_day_text r.day ≡ true
    → IsNamed input r
    → check_wrapper platform input r epoch wrapper ≡ some evidence
    → is_attestation evidence ≡ true
    → IsAttested platform input r × IsEvidenceOf input r evidence
unfolding check_wrapper is_attestation
check_wrapper_sound platform input r epoch none evidence at known day named e attests =
    absurd (ground (arith, e, attests))
check_wrapper_sound platform input r epoch (some wrapper) evidence at known day named e attests =
    elim (Option-cases (decode_wrap platform input r wrapper)) [
      | inl malformed ↦ absurd (ground (arith, malformed, e, attests))
      | inr (d, decoded) ↦
          elim (Option-cases
            (build_own_key_history platform r.wrapper_user_id d.1 wrapper.key_changes [])) [
              | inl broken ↦ absurd (ground (arith, decoded, broken, e, attests))
              | inr (history, built) ↦ elim (Option-cases (wrap_payload platform input r epoch)) [
                | inl throws ↦ absurd (ground (arith, decoded, built, throws, e))
                | inr (payload, is_payload) ↦
                    let judged : judge_wrap platform input r d.0 d.1 history payload ≡ evidence =
                      ground (arith, decoded, built, is_payload, e) in
                    let (signed, shows) =
                      judge_wrap_sound platform input r d.0 d.1 history payload evidence named
                        judged attests in
                    (
                      record {
                        epoch = epoch;
                        at_epoch = at;
                        wrapper = wrapper;
                        wrapper_keys = known;
                        is_day = day;
                        signature = d.0;
                        current = d.1;
                        decoded = decoded;
                        payload = payload;
                        is_payload = is_payload;
                        signed =
                            signed_under-IsSignedBy platform r.wrapper_user_id d.1
                              wrapper.key_changes history r.day SigningContext.wrap_record payload
                              d.0 built signed;
                      },
                      shows,
                    )
              ]
            ]
    ]

-- A wrap record attests an entry only if the wrapper it names signed, under a key that the verified
-- chain of their served rotations, each of them a link and no others, lets them use on the record's
-- well-formed day, the group, the wrapper, the member, the generation, the epoch, the reason and
-- the day; evidence of a member's own wrapping names the member as the wrapper, and evidence of an
-- approval names somebody else.
pub check_wrap_record_sound :
    (platform : Platform) (input : WrapInput) (evidence : WrapEvidence)
    → check_wrap_record platform input ≡ some evidence
    → is_attestation evidence ≡ true
    → (r : WireWrapRecord) × (input.wrap_record ≡ some r)
      × IsAttested platform input r
      × IsEvidenceOf input r evidence
unfolding check_wrap_record is_attestation
check_wrap_record_sound platform input evidence e attests = elim (Option-cases input.wrap_record) [
  | inl absent ↦ absurd (ground (arith, absent, e, attests))
  | inr (r, stored) ↦ elim (Option-cases input.wrap_epoch) [
    | inl unread ↦ absurd (ground (arith, stored, unread, e, attests))
    | inr (epoch, at) ↦
        let checked : check_named platform input r epoch ≡ some evidence =
          ground (arith, stored, at, e) in
        elim (check_named_cases platform input r epoch) [
          | inl bad ↦ absurd (ground (arith, bad, checked, attests))
          | inr (named, day, same) ↦
              let (attested, shows) =
                check_wrapper_sound platform input r epoch input.wrapper evidence at refl day named
                  (sym same ∙ checked) attests in
              (r, stored, attested, shows)
        ]
  ]
]
