-- ===== src/Succession/Status.antt =====
-- The functions of designation.ts. It verifies nothing; it tells the user what a claim would find.
use undergroundbb.Base.{
  ℕ, suc, ◌+◌, ◌*◌, ◌-◌, ◌/◌, Bool, true, false, not, ◌&&◌, List, [], ◌∷◌, ◌++◌, Option, none, some,
  Text, codes, ltb, leb, ◌==◌, ◌===◌, any, find, keep, map, if◌then◌else◌, ◌>>=◌,
}
use undergroundbb.Platform.{Platform}
use undergroundbb.Grant.Records.{
  Number, natural, negative, fraction, GrantRecord, DesignationRecord,
}
use undergroundbb.Grant.SortKey.{tagged_key}
use undergroundbb.Grant.Keys.{day_ms}
use undergroundbb.Grant.Verify.{names}

pub record MemberLike : Type 0 where
  pub user_id : Text
  pub role : Text

pub record Dated : Type 0 where
  pub d : DesignationRecord
  pub day : ℕ

-- The newest designation, or the day on which two of them cancelled each other.
pub data NewestOf : Type 0 where
  no_designation : NewestOf
  cancelled_day : ℕ → NewestOf
  newest : Dated → NewestOf

-- `best` and `bestDay` (none for -Infinity).
pub record Best : Type 0 where
  pub best_day : Option ℕ
  pub best : List DesignationRecord

unfoldable pub nothing_best : Best
nothing_best = record { best_day = none; best = [] }

unfoldable pub bettered_at : Option ℕ → List DesignationRecord → ℕ → DesignationRecord → Best
bettered_at none best day d = record { best_day = some day; best = d ∷ [] }
bettered_at (some best_day) best day d =
    if ltb best_day day
    then record { best_day = some day; best = d ∷ [] }
    else if day == best_day
    then record { best_day = some best_day; best = best ++ d ∷ [] }
    else record { best_day = some best_day; best = best }

unfoldable pub bettered : Best → ℕ → DesignationRecord → Best
unfolding bettered_at
bettered b day d = bettered_at b.best_day b.best day d

-- What `newestOf` returns of its loop's result.
unfoldable pub newest_in : Best → NewestOf
newest_in b = elim b.best [
  | [] ↦ no_designation
  | d ∷ more ↦ elim b.best_day [
    | none ↦ no_designation
    | some day ↦ elim more [
      | [] ↦ newest (record { d = d; day = day })
      | e ∷ es ↦ cancelled_day day
    ]
  ]
]

unfoldable pub utc_day_ms : ℕ → ℕ
utc_day_ms now_ms = now_ms / day_ms * day_ms

-- The sum is a number like the period: negative before the earliest `Date`, and `fraction` where the
-- period is one, whether or not the sum is rounded to an integer.
unfoldable pub add_days : ℕ → Number → Number
add_days day_start (natural n) = natural (day_start + n * day_ms)
add_days day_start (negative n) =
    if leb (suc n * day_ms) day_start
    then natural (day_start - suc n * day_ms)
    else negative (suc n * day_ms - day_start - 1)
add_days day_start fraction = fraction

unfoldable pub claimed_by : Text → List GrantRecord → Option Text
claimed_by sort_key grants =
    find (λ g. elim g.via_designation [ none ↦ false | some via ↦ via === sort_key ]) grants
    >>= λ g. some g.subject_user_id

unfoldable pub is_admin_member : Text → List MemberLike → Bool
is_admin_member user members = any (λ m. m.user_id === user && m.role === codes "admin") members

-- `first === null || day < first`
abbrev pub earlier : Option ℕ → ℕ → Bool
earlier none day = true
earlier (some first) day = ltb day first

pub data AdminSuccessorStatus : Type 0 where
  no_status : AdminSuccessorStatus
  revoked cancelled : ℕ → AdminSuccessorStatus
  used : DesignationRecord → Text → AdminSuccessorStatus
  lapsed : DesignationRecord → ℕ → AdminSuccessorStatus
  successor_gone successor_admin : DesignationRecord → AdminSuccessorStatus
  active : DesignationRecord → Text → Number → ℕ → Number → AdminSuccessorStatus

pub record SuccessorOffer : Type 0 where
  pub designation : DesignationRecord
  pub admin_user_id : Text
  pub period_days : Number
  pub designation_day : ℕ
  pub claimable_from : Number
  pub period_elapsed : Option Bool

-- `claimDayMs >= claimableFrom`; none where the answer is the rounding's, which is not modelled.
abbrev pub reached : ℕ → Number → Option Bool
reached day (natural from) = some (leb from day)
reached day (negative from) = some true
reached day fraction = none

-- `offers.push({ … })`
abbrev pub offer_for : ℕ → Text → Dated → SuccessorOffer
offer_for claim_day admin n = record {
  designation = n.d;
  admin_user_id = admin;
  period_days = n.d.period_days;
  designation_day = n.day;
  claimable_from = add_days n.day n.d.period_days;
  period_elapsed = reached claim_day (add_days n.day n.d.period_days);
}

-- `new Set(...)`: each admin once, in the order of first appearance.
unfoldable pub unique : List Text → List Text → List Text
unique seen [] = []
unique seen (a ∷ more) =
    let rest = unique (a ∷ seen) more in
    let same = unique seen more in if any (λ s. s === a) seen then same else a ∷ rest

module _ (platform : Platform) where
  open platform use {date_parse}

  -- The regular expression KEY_DAY has both tags.
  unfoldable pub key_day_ms : Text → Option ℕ
  key_day_ms sort_key =
      let day_of = λ (groups : Text × Text). date_parse (groups.1 ++ codes "T00:00:00Z") in
      elim (tagged_key (codes "DESIGNATION") sort_key) [
        | some groups ↦ day_of groups
        | none ↦ tagged_key (codes "GRANT") sort_key >>= day_of
      ]

  -- The loop of `newestOf`.
  unfoldable pub newest_loop : Text → List DesignationRecord → Best → Best
  newest_loop admin [] b = b
  newest_loop admin (d ∷ ds) b =
      let skipped = newest_loop admin ds b in
      if not (d.admin_user_id === admin) then skipped else elim (key_day_ms d.sort_key) [
        | none ↦ skipped
        | some day ↦ newest_loop admin ds (bettered b day d)
      ]

  unfoldable pub newest_of : Text → List DesignationRecord → NewestOf
  newest_of admin ds = newest_in (newest_loop admin ds nothing_best)

  -- The loop of `firstGrantToAdmin`.
  unfoldable pub first_grant_loop : Text → ℕ → ℕ → List GrantRecord → Option ℕ → Option ℕ
  first_grant_loop admin from to [] first = first
  first_grant_loop admin from to (g ∷ gs) first =
      let skipped = first_grant_loop admin from to gs first in
      if not (g.subject_user_id === admin) then skipped else elim (key_day_ms g.sort_key) [
        | none ↦ skipped
        | some day ↦
            let taken = first_grant_loop admin from to gs (some day) in
            if leb from day && (leb day to && earlier first day) then taken else skipped
      ]

  unfoldable pub first_grant_to_admin : Text → List GrantRecord → ℕ → ℕ → Option ℕ
  first_grant_to_admin admin grants from to = first_grant_loop admin from to grants none

  module _ (designations : List DesignationRecord) (grants : List GrantRecord)
      (members : List MemberLike) where
    -- From the point where the designation names someone.
    unfoldable pub status_of : Text → Dated → Text → ℕ → AdminSuccessorStatus
    status_of admin n successor now_ms = elim (claimed_by n.d.sort_key grants) [
      | some taker ↦ used n.d taker
      | none ↦ elim (first_grant_to_admin admin grants n.day (utc_day_ms now_ms)) [
        | some since ↦ lapsed n.d since
        | none ↦
            if not (any (λ m. m.user_id === successor) members)
            then successor_gone n.d
            else if is_admin_member successor members
            then successor_admin n.d
            else active n.d successor n.d.period_days n.day (add_days n.day n.d.period_days)
      ]
    ]

    unfoldable pub admin_successor_status : Text → ℕ → AdminSuccessorStatus
    admin_successor_status admin now_ms = elim (newest_of admin designations) [
      | no_designation ↦ no_status
      | cancelled_day day ↦ cancelled day
      | newest n ↦ elim n.d.successor_user_id [
        | none ↦ revoked n.day
        | some [] ↦ revoked n.day
        | some (c ∷ s) ↦ status_of admin n (c ∷ s) now_ms
      ]
    ]

    -- The body of the loop over the admins: the offer, if it makes one.
    unfoldable pub offer_of : Text → ℕ → Text → Option SuccessorOffer
    offer_of user claim_day admin =
        if not (is_admin_member admin members) then none else elim (newest_of admin designations) [
          | no_designation ↦ none
          | cancelled_day day ↦ none
          | newest n ↦
              if not (names n.d.successor_user_id user)
              then none
              else elim (claimed_by n.d.sort_key grants) [
                | some taker ↦ none
                | none ↦ elim (first_grant_to_admin admin grants n.day claim_day) [
                  | some since ↦ none
                  | none ↦ some (offer_for claim_day admin n)
                ]
              ]
        ]

    unfoldable pub offers_from : Text → ℕ → List Text → List SuccessorOffer
    offers_from user claim_day [] = []
    offers_from user claim_day (a ∷ more) =
        let rest = offers_from user claim_day more in
        elim (offer_of user claim_day a) [ none ↦ rest | some o ↦ o ∷ rest ]

    unfoldable pub successor_offers : Text → ℕ → List SuccessorOffer
    successor_offers user claim_day = offers_from user claim_day (
        unique []
          (map (λ d. d.admin_user_id) (keep (λ d. names d.successor_user_id user) designations)))
