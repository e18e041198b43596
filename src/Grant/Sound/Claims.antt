-- ===== src/Grant/Sound/Claims.antt =====
-- A designation and a claim on it: what `valid` says of each.
use undergroundbb.Base.{
  In-keep, ◌&&◌, sym, keep, subst, single, not, ltb, Bool-cases, ◌≢◌, ℕ, ◌+◌, ◌*◌, ◌≤◌, ◌≡◌, refl,
  ap, inl, inr, Bool, true, false, List, [], ◌∷◌, Option, none, some, arith, Text, Bytes, ◌===◌,
  ===_iff, In, first, later, any, Option-cases,
}
use undergroundbb.Platform.{Platform}
use undergroundbb.Wire.Encoding.{decode}
use undergroundbb.Wire.Signature.{SigningContext}
use undergroundbb.Payloads.{successor_designation_payload, successor_claim_payload}
use undergroundbb.Grant.Records.{
  Number, natural, negative, fraction, GrantRecord, DesignationRecord, GrantChainInput, Party,
  GrantVerdict, valid,
}
use undergroundbb.Grant.SortKey.{ParsedKey, parse_sort_key, parse_designation_key}
use undergroundbb.Grant.Keys.{day_ms, signed_on_day}
use undergroundbb.Grant.Scan.{grants_to}
use undergroundbb.Grant.Verify.{
  served_designations, designations_by, claim_day_skew_tolerance_ms, duplicated_designation,
  designated_again, claim_dated_ahead, citing, cites, admin_chain, or_empty, names, days,
  period_in_range, in_window, is_admin, body_admin, signature_verdict, designation_signature,
  compute_designation, role_changed_since, claim_verdict,
}
use undergroundbb.Grant.Rules.{IsDated, IsRow, IsDesignated, IsClaim}
use undergroundbb.Grant.Current.{note_is_Dated, Dated-is_note, IsCurrent-scan}
use undergroundbb.Grant.Judged.{signature_valid, scan-IsJudged}

module _ (platform : Platform) (input : GrantChainInput) where
  period_sound : (n : Number) → period_in_range n ≡ true → (30 ≤ days n) × (days n ≤ 365)
  unfolding period_in_range
  period_sound (natural n) e = ground arith
  period_sound (negative n) e = cc
  period_sound fraction e = cc

  pub designation_sound :
      (rec : GrantRecord → Option GrantVerdict) (d : DesignationRecord)
      → compute_designation platform input rec d ≡ some valid
      → (current : GrantRecord) × (day : ℕ) × IsDesignated platform input d current day
        × (rec current ≡ some valid)
  unfolding compute_designation designation_signature
  designation_sound rec d e = elim (Option-cases (parse_designation_key platform d.sort_key)) [
    | inl malformed ↦ absurd (ground (arith, malformed, e))
    | inr (key, parses) ↦ elim (Option-cases (decode platform (some d.signature))) [
      | inl malformed ↦ absurd (ground (arith, parses, malformed, e))
      | inr (sig, decodes) ↦
          let body = body_admin platform input key.day in
          let gs = grants_to d.admin_user_id input.grants in
          let facts : (duplicated_designation d.sort_key (served_designations platform input)
                ≡ false)
              × ((key.subject === d.admin_user_id) ≡ true)
              × (period_in_range d.period_days ≡ true)
              × (admin_chain platform input rec d key.day sig ≡ some valid) =
            ground (arith, parses, decodes, e) in
          let (l, s, j, signed) =
            scan-IsJudged platform input body gs rec Party.admin is_admin d.admin_grant_ref
              (designation_signature platform input d key.day sig)
              (unfold admin_chain in facts.3) in
          (
            j.current,
            key.day,
            record {
              key = key;
              parses = parses;
              is_day = refl;
              unique = facts.0;
              own_admin = (===_iff _ _).0 facts.1;
              sig = sig;
              is_current =
                  IsCurrent-scan platform input body key.day (note_is_Dated platform input)
                    (Dated-is_note platform input) l j.current s j.only;
              cited = j.cited;
              admin = (===_iff _ _).0 j.fits;
              at_least = (period_sound d.period_days facts.2).0;
              at_most = (period_sound d.period_days facts.2).1;
              signed =
                  signature_valid platform input Party.admin d.admin_user_id key.day
                    SigningContext.successor_designation
                    (successor_designation_payload platform input.group_id d.admin_user_id
                      (or_empty d.successor_user_id) (days d.period_days) d.sort_key
                      d.admin_grant_ref)
                    sig signed;
            },
            j.own_valid,
          )
    ]
  ]

  any_none :
      {A : Type 0} (f : A → Bool) (gs : List A) {o : A} → any f gs ≡ false → In o gs → f o ≡ false
  unfolding any
  any_none f [] e m = elim m [ ]
  any_none f (g ∷ gs) e (first same) = rw same (ground arith)
  any_none f (g ∷ gs) e (later m) = any_none f gs (ground arith) m

  untouched_sound :
      (d : DesignationRecord) (from day : ℕ)
      → role_changed_since platform input d from day ≡ false
      → (o : GrantRecord) (k : ℕ) → In o (grants_to d.admin_user_id input.grants)
      → IsDated platform input o k
      → from ≤ k
      → ¬ (k ≤ day)
  unfolding role_changed_since
  untouched_sound d from day e o k m dated lo hi =
      let outside : in_window platform input from day (parse_sort_key platform o.sort_key) ≡ false =
        any_none
          (λ other. in_window platform input from day (parse_sort_key platform other.sort_key))
          (grants_to d.admin_user_id input.grants) e m in
      ground (arith, outside, dated.parses, dated.is_day)

  not_again_sound :
      (d : DesignationRecord) (from day : ℕ)
      → designated_again platform input d from day ≡ false
      → (o : DesignationRecord) (k : ParsedKey) → In o (served_designations platform input)
      → o.admin_user_id ≡ d.admin_user_id
      → o.sort_key ≢ d.sort_key
      → parse_designation_key platform o.sort_key ≡ some k
      → from ≤ k.day
      → ¬ (k.day ≤ day)
  unfolding designated_again designations_by
  not_again_sound d from day e o k m own other parses lo hi =
      let quiet : (not (o.sort_key === d.sort_key)
            && in_window platform input from day (parse_designation_key platform o.sort_key))
          ≡ false =
        any_none
          (λ other.
            not (other.sort_key === d.sort_key)
            && in_window platform input from day (parse_designation_key platform other.sort_key))
          (designations_by d.admin_user_id (served_designations platform input)) e
          (In-keep (λ x. x.admin_user_id === d.admin_user_id) (served_designations platform input) m
            ((===_iff _ _).1 own)) in
      elim (Bool-cases (o.sort_key === d.sort_key)) [
        | inl same ↦ absurd (other ((===_iff _ _).0 same))
        | inr apart ↦ ground (arith, quiet, apart, parses)
      ]

  not_ahead_sound :
      (day : ℕ)
      → claim_dated_ahead platform input day ≡ false
      → (now : ℕ) → input.now ≡ some now
      → day ≤ now + claim_day_skew_tolerance_ms
  unfolding claim_dated_ahead
  not_ahead_sound day e now clock = ground (arith, e, clock)

  cites-relies :
      (key : Text) (o : GrantRecord) → key ≢ [] → o.via_designation ≡ some key → cites key o ≡ true
  unfolding cites
  cites-relies key o relies via = elim (Bool-cases (key === [])) [
    | inl empty ↦ absurd (relies ((===_iff _ _).0 empty))
    | inr full ↦ ground (arith, via, full, (===_iff key key).1 refl)
  ]

  -- At most one served grant relies on a designation that a claim has passed.
  spent_once_sound :
      (key : Text)
      → key ≢ []
      → ltb 1 (citing key input.grants) ≡ false
      → (o other : GrantRecord) → In o input.grants
      → o.via_designation ≡ some key
      → In other input.grants
      → other.via_designation ≡ some key
      → o ≡ other
  unfolding citing
  spent_once_sound key relies e o other m via n via' =
      single (keep (cites key) input.grants) e
        (In-keep (cites key) input.grants m (cites-relies key o relies via))
        (In-keep (cites key) input.grants n (cites-relies key other relies via'))

  names_sound : (x : Option Text) (y : Text) → names x y ≡ true → x ≡ some y
  names_sound none y e = cc
  names_sound (some x) y e = ap some ((===_iff x y).0 e)

  pub IsClaim-sound :
      (g : GrantRecord) (d : DesignationRecord) (from day : ℕ) (sig : Bytes)
      → IsRow platform input g day sig
      → is_admin g.granted_role ≡ true
      → (key : ParsedKey) → parse_designation_key platform d.sort_key ≡ some key
      → key.day ≡ from
      → or_empty g.via_designation ≢ []
      → d.sort_key ≡ or_empty g.via_designation
      → ltb 1 (citing (or_empty g.via_designation) input.grants) ≡ false
      → claim_verdict platform input g (or_empty g.via_designation) d day sig ≡ valid
      → IsClaim platform input g d from day
  unfolding claim_verdict
  IsClaim-sound g d from day sig row admin key parses is_day relies via once e =
      let facts : (names d.successor_user_id g.subject_user_id ≡ true)
          × ((g.grantor_user_id === d.admin_user_id) ≡ true)
          × ((or_empty g.grantor_grant_ref === d.admin_grant_ref) ≡ true)
          × (from + days d.period_days * day_ms ≤ day)
          × (claim_dated_ahead platform input day ≡ false)
          × (designated_again platform input d from day ≡ false)
          × (role_changed_since platform input d from day ≡ false)
          × (signature_verdict platform input Party.successor g.subject_user_id (λ history.
                signed_on_day platform history day SigningContext.successor_claim
                  (successor_claim_payload platform input.group_id g.subject_user_id
                    (or_empty g.via_designation) g.sort_key)
                  sig)
              ≡ valid) =
        ground (arith, parses, is_day, e) in
      record {
        sig = sig;
        row = row;
        admin = (===_iff _ _).0 admin;
        named = names_sound _ _ facts.0;
        names_admin = (===_iff _ _).0 facts.1;
        cited = (===_iff _ _).0 facts.2;
        relied_on = via;
        spent_once =
            spent_once_sound d.sort_key (subst (λ k. k ≢ []) (sym via) relies)
              (subst (λ k. ltb 1 (citing k input.grants) ≡ false) (sym via) once);
        elapsed = facts.3;
        not_ahead = not_ahead_sound day facts.4;
        not_again = not_again_sound d from day facts.5;
        admin_untouched = untouched_sound d from day facts.6;
        signed =
            signature_valid platform input Party.successor g.subject_user_id day
              SigningContext.successor_claim
              (successor_claim_payload platform input.group_id g.subject_user_id
                (or_empty g.via_designation) g.sort_key)
              sig facts.7;
      }
