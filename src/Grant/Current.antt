-- ===== src/Grant/Current.antt =====
-- What the three loops over a user's grants find: the user's current grant on a day.
use undergroundbb.Base.{
  ℕ, ◌<◌, ◌≡◌, ◌≢◌, refl, inl, inr, true, List, [], ◌∷◌, Option, some, arith, Text, ◌===◌, In,
  first, later, Bool-cases, Option-cases,
}
use undergroundbb.Platform.{Platform}
use undergroundbb.Grant.Records.{GrantRecord, GrantChainInput, GrantVerdict}
use undergroundbb.Grant.SortKey.{parse_sort_key}
use undergroundbb.Grant.Scan.{Act, stop, note, Latest, nothing_yet}
use undergroundbb.Grant.Scan.Laws.{
  Scanned, IsCovered, Scanned-Kept, nothing_yet-Kept, Scanned-IsCovered,
}
use undergroundbb.Grant.Verify.{is_self_demotion, body_grantor, body_admin, body_signer}
use undergroundbb.Grant.Rules.{IsDated, IsCurrent}

module _ (platform : Platform) (input : GrantChainInput) where
  abbrev pub Dated : GrantRecord → ℕ → Type 0
  Dated = IsDated platform input

  pub note_is_Dated :
      {day : ℕ} (o : GrantRecord) (d : ℕ)
      → body_admin platform input day o ≡ some (note d)
      → Dated o d × (d < day)
  unfolding body_admin
  note_is_Dated {day} o d e = elim (Option-cases (parse_sort_key platform o.sort_key)) [
    | inl no_key ↦ absurd (cc (rw (no_key, body_admin) at e))
    | inr (p, parses) ↦
        let cases : (p.day ≡ d) × (d < day) = ground (arith, parses, e) in
        (record { key = p; parses = parses; is_day = cases.0 }, cases.1)
  ]

  pub Dated-is_note :
      {day : ℕ} (o : GrantRecord) (d : ℕ)
      → Dated o d
      → d < day
      → body_admin platform input day o ≡ some (note d)
  unfolding body_admin
  Dated-is_note o d h lt = ground (arith, h.parses, h.is_day)

  pub Dated-stops :
      {day : ℕ} (o : GrantRecord) → Dated o day → body_admin platform input day o ≡ some stop
  unfolding body_admin
  Dated-stops o h = ground (arith, h.parses, h.is_day)

  -- The loop of `compute` does the same, but for a self-demotion of the day itself.
  pub grantor_note :
      {day : ℕ} (rec : GrantRecord → Option GrantVerdict) (o : GrantRecord) (d : ℕ)
      → body_grantor platform input rec day o ≡ some (note d)
      → Dated o d × (d < day)
  unfolding body_grantor
  grantor_note {day} rec o d e = elim (Option-cases (parse_sort_key platform o.sort_key)) [
    | inl no_key ↦ absurd (cc (rw (no_key, body_grantor) at e))
    | inr (p, parses) ↦
        let cases : (p.day ≡ d) × (d < day) = ground (arith, parses, e) in
        (record { key = p; parses = parses; is_day = cases.0 }, cases.1)
  ]

  pub grantor-Dated :
      {day : ℕ} (rec : GrantRecord → Option GrantVerdict) (o : GrantRecord) (d : ℕ)
      → Dated o d
      → d < day
      → body_grantor platform input rec day o ≡ some (note d)
  unfolding body_grantor
  grantor-Dated rec o d h lt = ground (arith, h.parses, h.is_day)

  pub grantor_same_day :
      {day : ℕ} (rec : GrantRecord → Option GrantVerdict) (o : GrantRecord)
      → Dated o day
      → body_grantor platform input rec day o ≢ some stop
      → is_self_demotion o ≡ true
  unfolding body_grantor
  grantor_same_day rec o h go = ground (arith, h.parses, h.is_day)

  -- The loop of `verifySelfDemotion` leaves the demotion itself out.
  pub signer_note :
      {day : ℕ} (own : Text) (o : GrantRecord) (d : ℕ)
      → body_signer platform input own day o ≡ some (note d)
      → Dated o d × (d < day)
  unfolding body_signer
  signer_note own o d e = elim (Bool-cases (o.sort_key === own)) [
    | inl same ↦ absurd (cc (rw (same, body_signer) at e))
    | inr other ↦ note_is_Dated o d (rw (other, body_signer) at e)
  ]

  only_one : {o current : GrantRecord} → In o (current ∷ []) → o.sort_key ≡ current.sort_key
  only_one (first e) = rw e
  only_one (later m) = elim m [ ]

  module _ (body : GrantRecord → Option Act) (day : ℕ)
      (notes : (o : GrantRecord) (d : ℕ) → body o ≡ some (note d) → Dated o d × (d < day)) where
    -- The one grant that is left is listed and dated before the day.
    pub kept_is_Dated :
        {gs : List GrantRecord} {l : Latest} {current : GrantRecord}
        → Scanned body gs nothing_yet l
        → In current l.grants
        → (d : ℕ) × (l.day ≡ some d) × Dated current d × (d < day) × In current gs
    kept_is_Dated {gs} s m =
        let (d, at, facts) =
          Scanned-Kept (λ g d. Dated g d × (d < day) × In g gs)
            (λ g d listed e. ((notes g d e).0, (notes g d e).1, listed)) (nothing_yet-Kept _) s _
            m in
        (d, at, facts.0, facts.1, facts.2)

    pub IsCurrent-scan :
        ((o : GrantRecord) (d : ℕ) → Dated o d → d < day → body o ≡ some (note d))
        → {gs : List GrantRecord} (l : Latest) (current : GrantRecord)
        → Scanned body gs nothing_yet l
        → l.grants ≡ current ∷ []
        → IsCurrent platform input gs day current
    IsCurrent-scan counts {gs} l current s only =
        let (d, at, dated, before, listed) = kept_is_Dated s (rw only (first refl)) in
        record {
          listed = listed;
          own_day = d;
          dated = dated;
          before = before;
          latest =
              λ o k m h lt other. older o k d at (Scanned-IsCovered s m (counts o k h lt)) other;
        }
      where
        older :
            (o : GrantRecord) (k d : ℕ)
            → l.day ≡ some d
            → IsCovered l o k
            → o.sort_key ≢ current.sort_key
            → k < d
        older o k d at c other = elim c.older_or_kept [
          | inl lt ↦ ground (arith, at, c.is_day)
          | inr (same, m) ↦ absurd (other (only_one (rw only at m)))
        ]
