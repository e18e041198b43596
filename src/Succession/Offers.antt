-- ===== src/Succession/Offers.antt =====
-- What the offers of `successorOffers` promise.
use undergroundbb.Base.{
  if◌then◌else◌, sym, guard-eq-some, subst, ◌&&◌, ◌≢◌, ℕ, ◌≤◌, ◌≡◌, refl, ◌⊎◌, inl, inr, true,
  false, not, List, [], ◌∷◌, none, some, arith, Text, In, first, later, Bool-cases, Option-cases,
  ◌===◌, ===_iff, leb,
}
use undergroundbb.Platform.{Platform}
use undergroundbb.Grant.Records.{DesignationRecord, GrantRecord}
use undergroundbb.Grant.Verify.{names}
use undergroundbb.Succession.Status.{
  offer_for, NewestOf, MemberLike, Dated, newest, no_designation, cancelled_day, newest_of,
  claimed_by, first_grant_loop, first_grant_to_admin, offer_of, offers_from, successor_offers,
  SuccessorOffer, key_day_ms, is_admin_member, earlier, add_days, reached,
}
use undergroundbb.Succession.Newest.{IsNewest, newest_of_sound}

module _ (platform : Platform) (admin : Text) (from to : ℕ) where
  first_grant_loop-some :
      (gs : List GrantRecord) (day : ℕ)
      → first_grant_loop platform admin from to gs (some day) ≢ none
  unfolding first_grant_loop
  first_grant_loop-some [] day e = cc
  first_grant_loop-some (g ∷ gs) day e = elim (Bool-cases (g.subject_user_id === admin)) [
    | inr other ↦ first_grant_loop-some gs day (ground (arith, other, e))
    | inl theirs ↦ elim (Option-cases (key_day_ms platform g.sort_key)) [
      | inl undated ↦ first_grant_loop-some gs day (ground (arith, theirs, undated, e))
      | inr (k, dated) ↦ elim (Bool-cases (leb from k && (leb k to && earlier (some day) k))) [
        | inl taken ↦ first_grant_loop-some gs k (rw (theirs, dated, taken) at e)
        | inr skipped ↦ first_grant_loop-some gs day (rw (theirs, dated, skipped) at e)
      ]
    ]
  ]

  -- Where the loop finds nothing, no grant to the admin is dated within the two days.
  pub first_grant_loop-none :
      (gs : List GrantRecord)
      → first_grant_loop platform admin from to gs none ≡ none
      → (o : GrantRecord) (k : ℕ) → In o gs
      → o.subject_user_id ≡ admin
      → key_day_ms platform o.sort_key ≡ some k
      → from ≤ k
      → ¬ (k ≤ to)
  unfolding first_grant_loop
  first_grant_loop-none [] e o k m own dated lo hi = elim m [ ]
  first_grant_loop-none (g ∷ gs) e o k (later m) own dated lo hi =
      first_grant_loop-none gs (skipped (Bool-cases (g.subject_user_id === admin))) o k m own dated
        lo hi
    where
      skipped :
          ((g.subject_user_id === admin) ≡ true) ⊎ ((g.subject_user_id === admin) ≡ false)
          → first_grant_loop platform admin from to gs none ≡ none
      skipped (inr other) = ground (arith, other, e)
      skipped (inl theirs) = elim (Option-cases (key_day_ms platform g.sort_key)) [
        | inl undated ↦ ground (arith, theirs, undated, e)
        | inr (d, at) ↦ elim (Bool-cases (leb from d && (leb d to && earlier none d))) [
          | inl taken ↦ absurd (first_grant_loop-some gs d (rw (theirs, at, taken) at e))
          | inr missed ↦ rw (theirs, at, missed) at e
        ]
      ]
  first_grant_loop-none (g ∷ gs) e o k (first same) own dated lo hi =
      let here : first_grant_loop platform admin from to (o ∷ gs) none ≡ none = rw same e in
      let theirs = (===_iff o.subject_user_id admin).1 own in
      let within : (leb from k && (leb k to && earlier none k)) ≡ true = ground (arith, lo, hi) in
      first_grant_loop-some gs k (rw (theirs, dated, within) at here)

module _ (platform : Platform) (designations : List DesignationRecord) (grants : List GrantRecord)
    (members : List MemberLike) where
  -- An offer stands: its designation names the user, is the admin's newest, has not been claimed, and
  -- no grant to the admin, who is one, is dated from its day up to the day of the claim.
  pub record IsStanding (user : Text) (claim_day : ℕ) (o : SuccessorOffer) : Type 0 where
    pub admin_member : is_admin_member o.admin_user_id members ≡ true
    pub names_user : names o.designation.successor_user_id user ≡ true
    pub newest_one :
        IsNewest platform o.admin_user_id designations
          (record { d = o.designation; day = o.designation_day })
    pub unclaimed : claimed_by o.designation.sort_key grants ≡ none
    pub undisturbed_since :
        (g : GrantRecord) (k : ℕ)
        → In g grants
        → g.subject_user_id ≡ o.admin_user_id
        → key_day_ms platform g.sort_key ≡ some k
        → o.designation_day ≤ k
        → ¬ (k ≤ claim_day)
    pub due : o.period_elapsed ≡ reached claim_day (add_days o.designation_day o.period_days)

  offer_of-IsStanding :
      (user : Text) (claim_day : ℕ) (admin : Text) (o : SuccessorOffer)
      → offer_of platform designations grants members user claim_day admin ≡ some o
      → IsStanding user claim_day o
  unfolding offer_of first_grant_to_admin
  offer_of-IsStanding user claim_day admin o e =
      by_newest (newest_of platform admin designations) refl
    where
      is_admin : is_admin_member admin members ≡ true
      is_admin = (guard-eq-some (is_admin_member admin members) _ e).0

      by_dated :
          (n : Dated)
          → newest_of platform admin designations ≡ newest n
          → (if not (names n.d.successor_user_id user)
              then none
              else elim (claimed_by n.d.sort_key grants) [
                | some taker ↦ none
                | none ↦ elim (first_grant_loop platform admin n.day claim_day grants none) [
                  | some since ↦ none
                  | none ↦ some (offer_for claim_day admin n)
                ]
              ])
            ≡ some o
          → IsStanding user claim_day o
      by_dated n at e2 =
          let (named, e3) = guard-eq-some (names n.d.successor_user_id user) _ e2 in
          elim (Option-cases (claimed_by n.d.sort_key grants)) [
            | inr (taker, taken) ↦ absurd (ground (arith, taken, e3))
            | inl unclaimed ↦
                elim (Option-cases (first_grant_loop platform admin n.day claim_day grants none)) [
                  | inr (since, changed) ↦ absurd (ground (arith, unclaimed, changed, e3))
                  | inl unchanged ↦
                      let made : some (offer_for claim_day admin n) ≡ some o =
                        rw (unclaimed, unchanged) at e3 in
                      let same : offer_for claim_day admin n ≡ o = cc made in
                      subst (IsStanding user claim_day) same (record {
                        admin_member = is_admin;
                        names_user = named;
                        newest_one = newest_of_sound platform admin designations n at;
                        unclaimed = unclaimed;
                        undisturbed_since =
                            first_grant_loop-none platform admin n.day claim_day grants unchanged;
                        due = refl;
                      })
                ]
          ]

      by_newest :
          (n : NewestOf) → newest_of platform admin designations ≡ n → IsStanding user claim_day o
      by_newest no_designation at = absurd (ground (arith, at, e))
      by_newest (cancelled_day day) at = absurd (ground (arith, at, e))
      by_newest (newest n) at =
          let e2 : (if not (names n.d.successor_user_id user)
                then none
                else elim (claimed_by n.d.sort_key grants) [
                  | some taker ↦ none
                  | none ↦ elim (first_grant_loop platform admin n.day claim_day grants none) [
                    | some since ↦ none
                    | none ↦ some (offer_for claim_day admin n)
                  ]
                ])
              ≡ some o =
            ground (arith, is_admin, at, e) in
          by_dated n at e2

  one_or_rest :
      (user : Text) (claim_day : ℕ) (p o : SuccessorOffer) (rest : List SuccessorOffer)
      → IsStanding user claim_day p
      → In o (p ∷ rest)
      → IsStanding user claim_day o ⊎ In o rest
  one_or_rest user claim_day p o rest standing (first same) =
      inl (subst (IsStanding user claim_day) (sym same) standing)
  one_or_rest user claim_day p o rest standing (later m) = inr m

  offers_from-IsStanding :
      (user : Text) (claim_day : ℕ) (admins : List Text) (o : SuccessorOffer)
      → In o (offers_from platform designations grants members user claim_day admins)
      → IsStanding user claim_day o
  unfolding offers_from
  offers_from-IsStanding user claim_day [] o m = elim m [ ]
  offers_from-IsStanding user claim_day (a ∷ admins) o m =
      elim (Option-cases (offer_of platform designations grants members user claim_day a)) [
        | inl no_offer ↦
            offers_from-IsStanding user claim_day admins o (rw (no_offer, offers_from) at m)
        | inr (p, made) ↦
            elim (one_or_rest user claim_day p o _ (offer_of-IsStanding user claim_day a p made)
              (rw (made, offers_from) at m)) [
                | inl standing ↦ standing
                | inr rest ↦ offers_from-IsStanding user claim_day admins o rest
              ]
      ]

  -- Every offer that is made to a user stands as of the day of the claim.
  pub successor_offers-IsStanding :
      (user : Text) (claim_day : ℕ) (o : SuccessorOffer)
      → In o (successor_offers platform designations grants members user claim_day)
      → IsStanding user claim_day o
  unfolding successor_offers
  successor_offers-IsStanding user claim_day o m = offers_from-IsStanding user claim_day _ o m
