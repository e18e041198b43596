-- ===== src/Succession/Newest.antt =====
-- `newestOf`: the one latest designation of an admin.
use undergroundbb.Platform.{Platform}
use undergroundbb.Base.{
  ===_iff, true, Option-cases, ◌===◌, Text, ==_iff, ℕ, ◌<◌, ◌≡◌, refl, sym, subst, ◌⊎◌, inl, inr,
  List, [], ◌∷◌, ◌++◌, Option, none, some, arith, In, first, later, Bool-cases, ltb, ◌==◌,
}
use undergroundbb.Grant.Records.{DesignationRecord}
use undergroundbb.Succession.Status.{
  nothing_best, newest, bettered, newest_of, newest_loop, newest_in, key_day_ms, Dated, bettered_at,
  Best,
}

-- The kept designations are of the day that is kept, and have the property.
record Keeps (P : DesignationRecord → ℕ → Type 0) (b : Best) : Type 0 where
  pub of_day : (o : DesignationRecord) → In o b.best → (day : ℕ) × (b.best_day ≡ some day) × P o day

-- A designation of a day has been counted.
record IsCounted (b : Best) (o : DesignationRecord) (d : ℕ) : Type 0 where
  pub day : ℕ
  pub is_day : b.best_day ≡ some day
  pub place : (d < day) ⊎ ((d ≡ day) × In o b.best)

In-snoc :
    {x : DesignationRecord} (xs : List DesignationRecord) (d : DesignationRecord)
    → In x (xs ++ d ∷ [])
    → In x xs ⊎ (x ≡ d)
In-snoc [] d (first e) = inr e
In-snoc [] d (later m) = elim m [ ]
In-snoc (y ∷ xs) d (first e) = inl (first e)
In-snoc (y ∷ xs) d (later m) = elim (In-snoc xs d m) [ inl k ↦ inl (later k) | inr e ↦ inr e ]

In-front : {x : DesignationRecord} (xs ys : List DesignationRecord) → In x xs → In x (xs ++ ys)
In-front (y ∷ xs) ys (first e) = first e
In-front (y ∷ xs) ys (later m) = later (In-front xs ys m)
In-front [] ys m = elim m [ ]

In-end : (xs : List DesignationRecord) (d : DesignationRecord) → In d (xs ++ d ∷ [])
In-end [] d = first refl
In-end (y ∷ xs) d = later (In-end xs d)

alone :
    (P : DesignationRecord → ℕ → Type 0) (d : DesignationRecord) (day : ℕ)
    → P d day
    → Keeps P (record { best_day = some day; best = d ∷ [] })
alone P d day p = record { of_day = only }
  where
    only : (o : DesignationRecord) → In o (d ∷ []) → (k : ℕ) × (some day ≡ some k) × P o k
    only o (first e) = (day, refl, subst (λ r. P r day) (sym e) p)
    only o (later m) = elim m [ ]

bettered_at-Keeps :
    (P : DesignationRecord → ℕ → Type 0) (best_day : Option ℕ) (best : List DesignationRecord)
    (day : ℕ) (d : DesignationRecord)
    → Keeps P (record { best_day = best_day; best = best })
    → P d day
    → Keeps P (bettered_at best_day best day d)
unfolding bettered_at
bettered_at-Keeps P none best day d k p = alone P d day p
bettered_at-Keeps P (some best_day) best day d k p = elim (Bool-cases (ltb best_day day)) [
  | inl newer ↦ rw newer (alone P d day p)
  | inr no_newer ↦ elim (Bool-cases (day == best_day)) [
    | inl same ↦ rw (no_newer, same) (record { of_day = joined ((==_iff day best_day).0 same) })
    | inr older ↦ rw (no_newer, older) k
  ]
]
  where
    joined :
        day ≡ best_day
        → (o : DesignationRecord) → In o (best ++ d ∷ [])
        → (x : ℕ) × (some best_day ≡ some x) × P o x
    joined same o m = elim (In-snoc best d m) [
      | inl kept ↦ k.of_day o kept
      | inr is_d ↦ (best_day, refl, subst (λ r. P r best_day) (sym is_d) (subst (P d) same p))
    ]

bettered_at-IsCounted :
    (best_day : Option ℕ) (best : List DesignationRecord) (day : ℕ) (d : DesignationRecord)
    → IsCounted (bettered_at best_day best day d) d day
unfolding bettered_at
bettered_at-IsCounted none best day d = record {
  day = day;
  is_day = refl;
  place = inr (refl, first refl);
}
bettered_at-IsCounted (some best_day) best day d = elim (Bool-cases (ltb best_day day)) [
  | inl newer ↦ rw newer (record { day = day; is_day = refl; place = inr (refl, first refl) })
  | inr no_newer ↦ elim (Bool-cases (day == best_day)) [
    | inl same ↦
        rw (no_newer, same)
          (record {
            day = best_day;
            is_day = refl;
            place = inr ((==_iff day best_day).0 same, In-end best d);
          })
    | inr older ↦
        rw (no_newer, older)
          (record { day = best_day; is_day = refl; place = inl (ground (arith, no_newer, older)) })
  ]
]

bettered_at-keeps_IsCounted :
    (best_day : Option ℕ) (best : List DesignationRecord) (day : ℕ) (d o : DesignationRecord)
    (k : ℕ)
    → IsCounted (record { best_day = best_day; best = best }) o k
    → IsCounted (bettered_at best_day best day d) o k
unfolding bettered_at
bettered_at-keeps_IsCounted none best day d o k c = cc c.is_day
bettered_at-keeps_IsCounted (some best_day) best day d o k c =
    elim (Bool-cases (ltb best_day day)) [
      | inl newer ↦ rw newer (record {
        day = day;
        is_day = refl;
        place = inl (elim c.place [
          | inl lt ↦ ground (arith, newer, lt, c.is_day)
          | inr (at, m) ↦ ground (arith, newer, at, c.is_day)
        ]);
      })
      | inr no_newer ↦ elim (Bool-cases (day == best_day)) [
        | inl same ↦
            rw (no_newer, same)
              (record {
                day = c.day;
                is_day = c.is_day;
                place = elim c.place [
                  | inl lt ↦ inl lt
                  | inr (at, m) ↦ inr (at, In-front best (d ∷ []) m)
                ];
              })
        | inr older ↦ rw (no_newer, older) c
      ]
    ]

module _ (platform : Platform) (admin : Text) where
  -- A designation that the loop counts, with its day.
  pub record IsCandidate (ds : List DesignationRecord) (o : DesignationRecord) (day : ℕ)
      : Type 0 where
    pub listed : In o ds
    pub own : o.admin_user_id ≡ admin
    pub dated : key_day_ms platform o.sort_key ≡ some day

  newest_loop-Keeps :
      (P : DesignationRecord → ℕ → Type 0) (ds : List DesignationRecord) (b : Best)
      → ((o : DesignationRecord) (day : ℕ) → IsCandidate ds o day → P o day)
      → Keeps P b
      → Keeps P (newest_loop platform admin ds b)
  unfolding newest_loop bettered
  newest_loop-Keeps P [] b all k = k
  newest_loop-Keeps P (d ∷ ds) b all k =
      let rest : (o : DesignationRecord) (day : ℕ) → IsCandidate ds o day → P o day =
        λ o day c. all o day (record { listed = later c.listed; own = c.own; dated = c.dated }) in
      elim (Bool-cases (d.admin_user_id === admin)) [
        | inr other ↦ rw other (newest_loop-Keeps P ds b rest k)
        | inl own ↦ elim (Option-cases (key_day_ms platform d.sort_key)) [
          | inl undated ↦ rw (own, undated) (newest_loop-Keeps P ds b rest k)
          | inr (day, dated) ↦
              rw (own, dated)
                (newest_loop-Keeps P ds (bettered b day d) rest (
                  bettered_at-Keeps P b.best_day b.best day d k (
                    all d day (record {
                      listed = first refl;
                      own = (===_iff d.admin_user_id admin).0 own;
                      dated = dated;
                    }))))
        ]
      ]

  newest_loop-keeps_IsCounted :
      (ds : List DesignationRecord) (b : Best) (o : DesignationRecord) (k : ℕ)
      → IsCounted b o k
      → IsCounted (newest_loop platform admin ds b) o k
  unfolding newest_loop bettered
  newest_loop-keeps_IsCounted [] b o k c = c
  newest_loop-keeps_IsCounted (d ∷ ds) b o k c = elim (Bool-cases (d.admin_user_id === admin)) [
    | inr other ↦ rw other (newest_loop-keeps_IsCounted ds b o k c)
    | inl own ↦ elim (Option-cases (key_day_ms platform d.sort_key)) [
      | inl undated ↦ rw (own, undated) (newest_loop-keeps_IsCounted ds b o k c)
      | inr (day, dated) ↦
          rw (own, dated)
            (newest_loop-keeps_IsCounted ds (bettered b day d) o k
              (bettered_at-keeps_IsCounted b.best_day b.best day d o k c))
    ]
  ]

  newest_loop-IsCounted :
      (ds : List DesignationRecord) (b : Best) (o : DesignationRecord) (k : ℕ)
      → In o ds
      → (o.admin_user_id === admin) ≡ true
      → key_day_ms platform o.sort_key ≡ some k
      → IsCounted (newest_loop platform admin ds b) o k
  unfolding newest_loop bettered
  newest_loop-IsCounted [] b o k m own dated = elim m [ ]
  newest_loop-IsCounted (d ∷ ds) b o k (first same) own dated =
      subst (λ r. IsCounted (newest_loop platform admin (r ∷ ds) b) o k) same
        (rw (own, dated)
          (newest_loop-keeps_IsCounted ds (bettered b k o) o k
            (bettered_at-IsCounted b.best_day b.best k o)))
  newest_loop-IsCounted (d ∷ ds) b o k (later m) own dated =
      elim (Bool-cases (d.admin_user_id === admin)) [
        | inr other ↦ rw other (newest_loop-IsCounted ds b o k m own dated)
        | inl theirs ↦ elim (Option-cases (key_day_ms platform d.sort_key)) [
          | inl undated ↦ rw (theirs, undated) (newest_loop-IsCounted ds b o k m own dated)
          | inr (day, at) ↦
              rw (theirs, at) (newest_loop-IsCounted ds (bettered b day d) o k m own dated)
        ]
      ]

  -- The designation is the admin's, of that day, and every other one of theirs is dated before it.
  pub record IsNewest (ds : List DesignationRecord) (n : Dated) : Type 0 where
    pub candidate : IsCandidate ds n.d n.day
    pub newest_one : (o : DesignationRecord) (k : ℕ) → IsCandidate ds o k → (k < n.day) ⊎ (o ≡ n.d)

  newest_in_sound :
      (best_day : Option ℕ) (best : List DesignationRecord) (n : Dated)
      → newest_in (record { best_day = best_day; best = best }) ≡ newest n
      → (best ≡ n.d ∷ []) × (best_day ≡ some n.day)
  unfolding newest_in
  newest_in_sound best_day [] n e = cc
  newest_in_sound none (d ∷ more) n e = cc
  newest_in_sound (some day) (d ∷ []) n e =
      let same : record { d = d; day = day } ≡ n = cc in (rw (← same) refl, rw (← same) refl)
  newest_in_sound (some day) (d ∷ o ∷ more) n e = cc

  pub newest_of_sound :
      (ds : List DesignationRecord) (n : Dated)
      → newest_of platform admin ds ≡ newest n
      → IsNewest ds n
  unfolding newest_of nothing_best
  newest_of_sound ds n e =
      let b = newest_loop platform admin ds nothing_best in
      let (only, at) = newest_in_sound b.best_day b.best n e in
      let (day, is_day, c) =
        (newest_loop-Keeps (IsCandidate ds) ds nothing_best (λ o k c. c)
            (record { of_day = λ o m. elim m [ ] })).of_day
          n.d (rw only (first refl)) in
      let same_day : day ≡ n.day = cc (at, is_day) in
      record {
        candidate = subst (IsCandidate ds n.d) same_day c;
        newest_one = λ o k c. later_or_same o k only at (
            newest_loop-IsCounted ds nothing_best o k c.listed
              ((===_iff o.admin_user_id admin).1 c.own) c.dated);
      }
    where
      single : {o : DesignationRecord} → In o (n.d ∷ []) → o ≡ n.d
      single (first e) = e
      single (later m) = elim m [ ]

      later_or_same :
          (o : DesignationRecord) (k : ℕ) {b : Best}
          → b.best ≡ n.d ∷ []
          → b.best_day ≡ some n.day
          → IsCounted b o k
          → (k < n.day) ⊎ (o ≡ n.d)
      later_or_same o k only at c = elim c.place [
        | inl lt ↦ inl (ground (arith, at, c.is_day, lt))
        | inr (same, m) ↦ inr (single (rw only at m))
      ]
