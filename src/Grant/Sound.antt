-- ===== src/Grant/Sound.antt =====
-- A grant that the verifier accepts is justified by the rules.
mod Ordinary
mod Claims
use Ordinary.{IsSound, IsRoot-sound, by_grantor_sound, self_demotion_sound}
use Claims.{designation_sound, IsClaim-sound}
use undergroundbb.Base.{
  false, ltb, ◌≢◌, suc, Bool-cases, zero, keep, keep-In, ℕ, ◌≡◌, ◌⊎◌, inl, inr, true, List, [], ◌∷◌,
  Option, none, some, arith, Text, Bytes, ◌===◌, ===_iff, In, first, later, Option-cases,
}
use undergroundbb.Platform.{Platform}
use undergroundbb.Grant.Records.{
  GrantRecord, DesignationRecord, GrantChainInput, GrantVerdict, valid,
}
use undergroundbb.Grant.Verify.{
  citing, verify_one, verify_claim, served_designations, last_of, designation_at, compute_signed,
  or_empty, is_admin, compute_designation, claim_verdict,
}
use undergroundbb.Grant.Rules.{root, claimed, IsRow, Justified}
use undergroundbb.Grant.Judged.{IsRow-valid}

last_of-In :
    (found : Option DesignationRecord) (ds : List DesignationRecord) {d : DesignationRecord}
    → last_of found ds ≡ some d
    → (found ≡ some d) ⊎ In d ds
unfolding last_of
last_of-In found [] e = inl e
last_of-In found (x ∷ ds) e = elim (last_of-In (some x) ds e) [
  | inl same ↦ inr (first (cc))
  | inr m ↦ inr (later m)
]

designation_at-In :
    (key : Text) (ds : List DesignationRecord) {d : DesignationRecord}
    → designation_at key ds ≡ some d
    → In d ds × (d.sort_key ≡ key)
unfolding designation_at
designation_at-In key ds {d} e = elim (last_of-In none (keep (λ d. d.sort_key === key) ds) e) [
  | inl absent ↦ absurd (cc)
  | inr m ↦
      let (served, same) = keep-In (λ d. d.sort_key === key) ds m in
      (served, (===_iff d.sort_key key).0 same)
]

module _ (platform : Platform) (input : GrantChainInput) where
  claim_by_designation :
      (rec : GrantRecord → Option GrantVerdict) (g : GrantRecord) (day : ℕ) (sig : Bytes)
      (d : DesignationRecord)
      → IsSound platform input rec
      → IsRow platform input g day sig
      → is_admin g.granted_role ≡ true
      → In d (served_designations platform input)
      → (v : GrantVerdict) → compute_designation platform input rec d ≡ some v
      → v ≡ valid
      → or_empty g.via_designation ≢ []
      → d.sort_key ≡ or_empty g.via_designation
      → ltb 1 (citing (or_empty g.via_designation) input.grants) ≡ false
      → claim_verdict platform input g (or_empty g.via_designation) d day sig ≡ valid
      → Justified platform input g
  claim_by_designation rec g day sig d sound row admin served v computed is_valid relies via once
        e =
      let (current, from, designated, own) =
        designation_sound platform input rec d (cc (computed, is_valid)) in
      claimed from day served designated
        (IsClaim-sound platform input g d from day sig row admin designated.key designated.parses
          designated.is_day relies via once e)
        (sound current own)

  verify_claim_sound :
      (rec : GrantRecord → Option GrantVerdict) (g : GrantRecord) (day : ℕ) (sig : Bytes)
      → IsSound platform input rec
      → IsRow platform input g day sig
      → or_empty g.via_designation ≢ []
      → verify_claim platform input rec g (or_empty g.via_designation) day sig ≡ some valid
      → Justified platform input g
  unfolding verify_claim
  verify_claim_sound rec g day sig sound row relies e =
      let key = or_empty g.via_designation in
      elim (Option-cases (designation_at key (served_designations platform input))) [
        | inl absent ↦ absurd (ground (arith, absent, e))
        | inr (d, found) ↦ elim (Option-cases (compute_designation platform input rec d)) [
          | inl overflow ↦ absurd (ground (arith, found, overflow, e))
          | inr (v, computed) ↦
              let (served, via) =
                designation_at-In key (served_designations platform input) found in
              let facts : (is_admin g.granted_role ≡ true)
                  × (ltb 1 (citing key input.grants) ≡ false)
                  × (v ≡ valid)
                  × (claim_verdict platform input g key d day sig ≡ valid) =
                ground (arith, found, computed, e) in
              claim_by_designation rec g day sig d sound row facts.0 served v computed facts.2
                relies via facts.1 facts.3
        ]
      ]

  compute_signed_sound :
      (rec : GrantRecord → Option GrantVerdict) (g : GrantRecord) (day : ℕ) (sig : Bytes)
      → IsSound platform input rec
      → IsRow platform input g day sig
      → compute_signed platform input rec g day sig ≡ some valid
      → Justified platform input g
  unfolding compute_signed
  compute_signed_sound rec g day sig sound row e =
      elim (Bool-cases (or_empty g.via_designation === [])) [
        | inr claim ↦
            verify_claim_sound rec g day sig sound row
              (λ none_given. cc (claim, (===_iff (or_empty g.via_designation) []).1 none_given))
              (ground (arith, claim, e))
        | inl plain ↦ elim (Bool-cases (g.sort_key === input.anchor.root_grant_sort_key)) [
          | inl at_root ↦ root (
              IsRoot-sound platform input g day sig row ((===_iff _ _).0 at_root)
                (ground (arith, plain, at_root, e)))
          | inr other ↦ elim (Bool-cases (g.grantor_user_id === g.subject_user_id)) [
            | inl self ↦
                self_demotion_sound platform input g day sig row rec sound self
                  (ground (arith, plain, other, self, e)) (ground (arith, plain, other, self, e))
            | inr by_other ↦
                by_grantor_sound platform input g day sig row rec sound by_other
                  (ground (arith, plain, other, by_other, e))
          ]
        ]
      ]

  -- Whatever the depth of the call stack, a grant that `verify_one` finds valid is justified by the
  -- rules of the role chain: a root under a verified anchor, a grant by a current admin, a step
  -- down, or a claim on an elapsed designation, each with a signature under a key held that day,
  -- and each resting on a justified grant. The designation of a claim is the one that it cites, is
  -- relied on by no other grant, and was not followed, up to the day of the claim, by another
  -- designation of its admin or by a grant to them.
  pub verify_one_sound :
      (depth : ℕ) (g : GrantRecord)
      → verify_one platform input depth g ≡ some valid
      → Justified platform input g
  unfolding verify_one
  verify_one_sound zero g e = cc
  verify_one_sound (suc depth) g e =
      let (day, sig, row, signed) =
        IsRow-valid platform input (verify_one platform input depth) g e in
      compute_signed_sound (verify_one platform input depth) g day sig (verify_one_sound depth) row
        signed
