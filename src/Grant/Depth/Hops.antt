-- ===== src/Grant/Depth/Hops.antt =====
-- What each hop of the recursion lowers, and that a verdict's parts answer where the hops do.
use undergroundbb.Wire.Encoding.{decode}
use undergroundbb.Grant.Current.{note_is_Dated, kept_is_Dated}
use undergroundbb.Grant.Scan.Laws.{scan_total, scan-Scanned}
use undergroundbb.Grant.Scan.{nothing_yet, scan, Latest, note, Act, grants_to}
use undergroundbb.Grant.Verify.{
  citing, period_in_range, is_admin, duplicated_designation, admin_chain, verify_claim,
  compute_designation, body_signer, body_grantor, served_designations, designation_at, or_empty,
  judge, body_admin, is_self_demotion,
}
use undergroundbb.Grant.SortKey.{parse_designation_key, ParsedKey, parse_sort_key}
use undergroundbb.Grant.Rules.{IsDated}
use undergroundbb.Grant.Records.{
  valid, reject, Party, GrantVerdict, DesignationRecord, GrantRecord, GrantChainInput,
}
use undergroundbb.Platform.{Platform}
use undergroundbb.Base.{
  not, length, Bytes, ==_iff, ltb, ◌∷◌, List, ◌==◌, inr, ◌===◌, inl, ◌≢◌, keep-In, Option-cases,
  ◌+◌, ◌*◌, In, if◌then◌else◌, ◌>>=◌, Bool, ℕ, refl, [], none, true, false, first, ◌<◌, ◌≤◌, ◌≡◌,
  Option, some, arith, Text,
}

-- There is an answer.
abbrev pub Answers {ℓ} : {A : Type ℓ} → Option A → Type ℓ
Answers {A} o = (a : A) × (o ≡ some a)

pub bind-Answers :
    {A B : Type 0} (m : Option A) (f : A → Option B)
    → Answers m
    → ((a : A) → m ≡ some a → Answers (f a))
    → Answers (m >>= f)
bind-Answers m f (a, e) k = let (b, p) = k a e in (b, rw e p)

pub if_Answers :
    {A : Type 0} (b : Bool) {x y : Option A}
    → (b ≡ true → Answers x)
    → (b ≡ false → Answers y)
    → Answers (if b then x else y)
if_Answers true p q = p refl
if_Answers false p q = q refl

pub answered : {A : Type 0} (a : A) → Answers (some a)
answered a = (a, refl)

module _ (platform : Platform) (input : GrantChainInput) where
  -- Every hop of the recursion lowers this: the day falls, or it stays and the hop is to a
  -- self-demotion.
  unfoldable pub rank : GrantRecord → ℕ
  rank g = elim (parse_sort_key platform g.sort_key) [
    | none ↦ 0
    | some p ↦ 2 * p.day + (if is_self_demotion g then 0 else 1)
  ]

  -- A claim is dated on or after the designation that it cites.
  pub record DesignationsPrecede : Type 0 where
    pub in_order :
        (g : GrantRecord) (d : DesignationRecord) (p q : ParsedKey)
        → In g input.grants
        → or_empty g.via_designation ≢ []
        → designation_at (or_empty g.via_designation) (served_designations platform input) ≡ some d
        → parse_sort_key platform g.sort_key ≡ some p
        → parse_designation_key platform d.sort_key ≡ some q
        → q.day ≤ p.day

  rank-dated : (g : GrantRecord) (d : ℕ) → IsDated platform input g d → rank g ≤ 2 * d + 1
  unfolding rank
  rank-dated g d h = ground (arith, h.parses, h.is_day)

  rank-above : (g : GrantRecord) (d : ℕ) → IsDated platform input g d → 2 * d ≤ rank g
  unfolding rank
  rank-above g d h = ground (arith, h.parses, h.is_day)

  rank-by_other :
      (g : GrantRecord) (d : ℕ)
      → IsDated platform input g d
      → is_self_demotion g ≡ false
      → rank g ≡ 2 * d + 1
  unfolding rank
  rank-by_other g d h e = ground (arith, h.parses, h.is_day)

  rank-demotion :
      (g : GrantRecord) (d : ℕ)
      → IsDated platform input g d
      → is_self_demotion g ≡ true
      → rank g ≡ 2 * d
  unfolding rank
  rank-demotion g d h e = ground (arith, h.parses, h.is_day)

  module _ (rec : GrantRecord → Option GrantVerdict) (bound : ℕ)
      (lower : (o : GrantRecord) → In o input.grants → rank o < bound → Answers (rec o)) where
    user_grants-In :
        (user : Text) {o : GrantRecord} → In o (grants_to user input.grants) → In o input.grants
    unfolding grants_to
    user_grants-In user m = (keep-In (λ g. g.subject_user_id === user) input.grants m).0

    judge_one-Answers :
        (who : Party) (role_fits : Text → Bool) (ref : Text) (signature : GrantVerdict) (l : Latest)
        (current : GrantRecord) (more : List GrantRecord)
        → l.grants ≡ current ∷ more
        → Answers (rec current)
        → Answers (judge platform input rec who role_fits ref signature (some l))
    unfolding judge
    judge_one-Answers who role_fits ref signature l current more p (w, e) =
        rw (p, judge)
          (if_Answers (ltb 0 (length more)) (λ _. answered _)
            (λ _.
              if_Answers (not (ref === current.sort_key)) (λ _. answered _)
                (λ _.
                  if_Answers (not (role_fits current.granted_role)) (λ _. answered _)
                    (λ _. bind-Answers (rec current) _ (w, e) (λ v _. answered _)))))

    -- What the loop leaves are grants dated before the day, on which `rec` answers.
    judge-Answers :
        (who : Party) (role_fits : Text → Bool) (ref : Text) (signature : GrantVerdict)
        (user : Text) (day : ℕ) (body : GrantRecord → Option Act)
        → ((o : GrantRecord) (d : ℕ)
            → body o ≡ some (note d)
            → IsDated platform input o d × (d < day))
        → 2 * day ≤ bound
        → (r : Option Latest) → scan body (grants_to user input.grants) nothing_yet ≡ some r
        → Answers (judge platform input rec who role_fits ref signature r)
    unfolding judge
    judge-Answers who role_fits ref signature user day body notes fits none e = answered _
    judge-Answers who role_fits ref signature user day body notes fits (some l) e =
        by_list l.grants refl
      where
        by_list :
            (gs : List GrantRecord)
            → l.grants ≡ gs
            → Answers (judge platform input rec who role_fits ref signature (some l))
        by_list [] p = rw (p, judge) (answered _)
        by_list (current ∷ more) p =
            let s = scan-Scanned body (grants_to user input.grants) nothing_yet l e in
            let kept = kept_is_Dated platform input body day notes s (rw p (first refl)) in
            let own =
              lower current (user_grants-In user kept.4)
                (omega (arith, rank-dated current kept.0 kept.2, kept.3)) in
            judge_one-Answers who role_fits ref signature l current more p own

    admin_body-Answers : (day : ℕ) (o : GrantRecord) → Answers (body_admin platform input day o)
    unfolding body_admin
    admin_body-Answers day o = elim (Option-cases (parse_sort_key platform o.sort_key)) [
      | inl malformed ↦ rw (malformed, body_admin) (answered _)
      | inr (p, parses) ↦
          rw (parses, body_admin) (if_Answers (p.day == day) (λ _. answered _) (λ _. answered _))
    ]

    pub demotion_body-Answers :
        (own : Text) (day : ℕ) (o : GrantRecord) → Answers (body_signer platform input own day o)
    unfolding body_signer
    demotion_body-Answers own day o =
        if_Answers (o.sort_key === own) (λ _. answered _) (λ _. admin_body-Answers day o)

    -- The one hop that stays on the day is to a self-demotion.
    pub grantor_body-Answers :
        (day : ℕ)
        → 2 * day < bound
        → (o : GrantRecord) → In o input.grants
        → Answers (body_grantor platform input rec day o)
    unfolding body_grantor
    grantor_body-Answers day fits o m = elim (Option-cases (parse_sort_key platform o.sort_key)) [
      | inl malformed ↦ rw (malformed, body_grantor) (answered _)
      | inr (p, parses) ↦
          rw (parses, body_grantor)
            (if_Answers (p.day == day)
              (λ same.
                if_Answers (is_self_demotion o)
                  (λ steps_down.
                    bind-Answers (rec o) _
                      (lower o m (
                        omega (
                          arith,
                          rank-demotion o day
                              (record {
                                key = p;
                                parses = parses;
                                is_day = (==_iff p.day day).0 same;
                              })
                              steps_down,
                        )))
                      (λ v _. answered _))
                  (λ _. answered _))
              (λ _. answered _))
    ]

    pub chain-Answers :
        (who : Party) (role_fits : Text → Bool) (ref : Text) (signature : GrantVerdict)
        (user : Text) (day : ℕ) (body : GrantRecord → Option Act)
        → ((o : GrantRecord) (d : ℕ)
            → body o ≡ some (note d)
            → IsDated platform input o d × (d < day))
        → 2 * day ≤ bound
        → ((o : GrantRecord) → In o input.grants → Answers (body o))
        → Answers (
            scan body (grants_to user input.grants) nothing_yet
            >>= judge platform input rec who role_fits ref signature)
    chain-Answers who role_fits ref signature user day body notes fits answers =
        bind-Answers (scan body (grants_to user input.grants) nothing_yet) _
          (scan_total body (grants_to user input.grants) nothing_yet
            (λ o m. answers o (user_grants-In user m)))
          (judge-Answers who role_fits ref signature user day body notes fits)

    designation-Answers :
        (d : DesignationRecord)
        → ((q : ParsedKey) → parse_designation_key platform d.sort_key ≡ some q → 2 * q.day ≤ bound)
        → Answers (compute_designation platform input rec d)
    unfolding compute_designation admin_chain
    designation-Answers d fits =
        if_Answers (duplicated_designation d.sort_key (served_designations platform input))
          (λ _. answered _)
          (λ _. elim (Option-cases (parse_designation_key platform d.sort_key)) [
            | inl malformed ↦ rw malformed (answered _)
            | inr (q, parses) ↦ rw parses (
                if_Answers (not (q.subject === d.admin_user_id)) (λ _. answered _)
                  (λ _.
                    if_Answers (not (period_in_range d.period_days)) (λ _. answered _)
                      (λ _. elim (Option-cases (decode platform (some d.signature))) [
                        | inl malformed ↦ rw malformed (answered _)
                        | inr (sig, decodes) ↦ rw decodes (
                            if_Answers (d.admin_grant_ref === []) (λ _. answered _)
                              (λ _.
                                chain-Answers Party.admin is_admin d.admin_grant_ref _
                                  d.admin_user_id q.day (body_admin platform input q.day)
                                  (note_is_Dated platform input) (fits q parses)
                                  (λ o _. admin_body-Answers q.day o)))
                      ])))
          ])

    pub claim-Answers :
        (g : GrantRecord) (day : ℕ) (sig : Bytes)
        → ((d : DesignationRecord) (q : ParsedKey)
            → designation_at (or_empty g.via_designation) (served_designations platform input)
              ≡ some d
            → parse_designation_key platform d.sort_key ≡ some q
            → 2 * q.day ≤ bound)
        → Answers (verify_claim platform input rec g (or_empty g.via_designation) day sig)
    unfolding verify_claim
    claim-Answers g day sig fits =
        if_Answers (not (is_admin g.granted_role)) (λ _. answered _)
          (λ _.
            if_Answers (ltb 1 (citing (or_empty g.via_designation) input.grants)) (λ _. answered _)
              (λ _.
                elim (Option-cases (
                  designation_at (or_empty g.via_designation)
                    (served_designations platform input))) [
                      | inl absent ↦ rw absent (answered _)
                      | inr (d, found) ↦ rw found (
                          bind-Answers (compute_designation platform input rec d) _
                            (designation-Answers d (λ q. fits d q found))
                            (elim [ valid ↦ λ _. answered _ | reject why ↦ λ _. answered _ ]))
                    ]))

  pub rank_of_day :
      (g : GrantRecord) (key : ParsedKey)
      → parse_sort_key platform g.sort_key ≡ some key
      → 2 * key.day ≤ rank g
  rank_of_day g key parses =
      rank-above g key.day (record { key = key; parses = parses; is_day = refl })

  -- A row by another user counts one more than its day.
  pub rank_by_another :
      (g : GrantRecord) (key : ParsedKey)
      → parse_sort_key platform g.sort_key ≡ some key
      → (g.grantor_user_id === g.subject_user_id) ≡ false
      → 2 * key.day < rank g
  unfolding rank is_self_demotion
  rank_by_another g key parses other = ground (arith, parses, other)
