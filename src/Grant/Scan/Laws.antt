-- ===== src/Grant/Scan/Laws.antt =====
-- What a loop that ran to its end says of the grants that it went over.
use undergroundbb.Base.{
  ℕ, ◌<◌, ◌≡◌, ◌≢◌, refl, ◌⊎◌, inl, inr, List, [], ◌∷◌, ◌++◌, Option, none, some, arith, ltb, ◌==◌,
  In, first, later, Option-cases, Bool-cases,
}
use undergroundbb.Grant.Records.{GrantRecord}
use undergroundbb.Grant.Scan.{Act, skip, stop, note, Latest, nothing_yet, counted, scan}

-- A grant counted at a day is dated before the latest day, or is among the latest.
pub record IsCovered (l : Latest) (g : GrantRecord) (day : ℕ) : Type 0 where
  pub latest_day : ℕ
  pub is_day : l.day ≡ some latest_day
  pub older_or_kept : (day < latest_day) ⊎ ((day ≡ latest_day) × In g l.grants)

-- What holds of each grant that was kept, at the latest day.
abbrev pub Kept : (GrantRecord → ℕ → Type 0) → Latest → Type 0
Kept Q l = (g : GrantRecord) → In g l.grants → (d : ℕ) × (l.day ≡ some d) × Q g d

In-append {ℓ} : {A : Type ℓ} {x y : A} (xs : List A) → In x (xs ++ y ∷ []) → In x xs ⊎ (x ≡ y)
In-append [] (first e) = inr e
In-append [] (later m) = elim m [ ]
In-append (z ∷ xs) (first e) = inl (first e)
In-append (z ∷ xs) (later m) = elim (In-append xs m) [ inl k ↦ inl (later k) | inr e ↦ inr e ]

In-append_left {ℓ} : {A : Type ℓ} {x : A} (xs ys : List A) → In x xs → In x (xs ++ ys)
In-append_left [] ys m = elim m [ ]
In-append_left (z ∷ xs) ys (first e) = first e
In-append_left (z ∷ xs) ys (later m) = later (In-append_left xs ys m)

In-append_last {ℓ} : {A : Type ℓ} (xs : List A) (y : A) → In y (xs ++ y ∷ [])
In-append_last [] y = first refl
In-append_last (z ∷ xs) y = later (In-append_last xs y)

-- The cases of `counted`, as facts.
pub data Counted (l : Latest) (day : ℕ) (g : GrantRecord) (l' : Latest) : Type 0 where
  fresh :
      ((d : ℕ) → l.day ≡ some d → d < day)
      → l' ≡ record { day = some day; grants = g ∷ [] }
      → Counted l day g l'
  tied : l.day ≡ some day → l' ≡ record l { grants = l.grants ++ g ∷ [] } → Counted l day g l'
  older : (d : ℕ) → l.day ≡ some d → day < d → l' ≡ l → Counted l day g l'

counted_cases : (l : Latest) (day : ℕ) (g : GrantRecord) → Counted l day g (counted l day g)
unfolding counted
counted_cases l day g = elim (Option-cases l.day) [
  | inl e ↦ fresh (λ d h. cc (e, h)) (rw (e, counted) refl)
  | inr (d, e) ↦ elim (Bool-cases (ltb d day)) [
    | inl lt ↦ fresh (λ d' h. ground (arith, e, h)) (ground (arith, e))
    | inr ge ↦ elim (Bool-cases (day == d)) [
      | inl eq ↦ tied (ground (arith, e)) (ground (arith, e))
      | inr ne ↦ older d e (ground arith) (ground (arith, e))
    ]
  ]
]

-- A loop that ran to its end, grant by grant.
pub data Scanned (body : GrantRecord → Option Act)
    : List GrantRecord → Latest → Latest → Type 0 where
  done : {l : Latest} → Scanned body [] l l
  skipped :
      {g : GrantRecord} {gs : List GrantRecord} {l l' : Latest}
      → body g ≡ some skip
      → Scanned body gs l l'
      → Scanned body (g ∷ gs) l l'
  noted :
      {g : GrantRecord} {gs : List GrantRecord} {l l' : Latest} (day : ℕ)
      → body g ≡ some (note day)
      → Scanned body gs (counted l day g) l'
      → Scanned body (g ∷ gs) l l'

module _ (body : GrantRecord → Option Act) where
  pub scan-Scanned :
      (gs : List GrantRecord) (l l' : Latest)
      → scan body gs l ≡ some (some l')
      → Scanned body gs l l'
  unfolding scan
  scan-Scanned [] l l' e = let same : l' ≡ l = cc in rw same done
  scan-Scanned (g ∷ gs) l l' e = by_act (body g) refl (scan-Scanned gs)
    where
      by_act :
          (a : Option Act)
          → body g ≡ a
          → ((m m' : Latest) → scan body gs m ≡ some (some m') → Scanned body gs m m')
          → Scanned body (g ∷ gs) l l'
      by_act none p ih = absurd (cc (rw (p, scan) at e))
      by_act (some skip) p ih = skipped p (ih l l' (rw (p, scan) at e))
      by_act (some stop) p ih = absurd (cc (rw (p, scan) at e))
      by_act (some (note d)) p ih = noted d p (ih (counted l d g) l' (rw (p, scan) at e))

module _ (Q : GrantRecord → ℕ → Type 0) where
  Kept-one :
      (day : ℕ) (g : GrantRecord) → Q g day → Kept Q (record { day = some day; grants = g ∷ [] })
  Kept-one day g q o (first same) = (day, refl, rw same q)
  Kept-one day g q o (later m) = elim m [ ]

  Kept-more :
      (l : Latest) (day : ℕ) (g : GrantRecord)
      → l.day ≡ some day
      → Q g day
      → Kept Q l
      → Kept Q (record l { grants = l.grants ++ g ∷ [] })
  Kept-more l day g at q k o m = elim (In-append l.grants m) [
    | inl old ↦ k o old
    | inr same ↦ (day, at, rw same q)
  ]

  Counted-Kept :
      {l l' : Latest} (day : ℕ) (g : GrantRecord)
      → Counted l day g l'
      → Q g day
      → Kept Q l
      → Kept Q l'
  Counted-Kept day g (fresh _ e) q k = rw e (Kept-one day g q)
  Counted-Kept {l} day g (tied at e) q k = rw e (Kept-more l day g at q k)
  Counted-Kept day g (older d at lt e) q k = rw e k

  -- What the body's count implies holds of every grant that is kept at the end.
  pub Scanned-Kept :
      {body : GrantRecord → Option Act} {gs : List GrantRecord} {l l' : Latest}
      → ((g : GrantRecord) (d : ℕ) → In g gs → body g ≡ some (note d) → Q g d)
      → Kept Q l
      → Scanned body gs l l'
      → Kept Q l'
  Scanned-Kept counts k done = k
  Scanned-Kept counts k (skipped p s) = Scanned-Kept (λ g d m. counts g d (later m)) k s
  Scanned-Kept counts k (noted {g} {l} day p s) =
      Scanned-Kept (λ o d m. counts o d (later m))
        (Counted-Kept day g (counted_cases l day g) (counts g day (first refl) p) k) s

  pub nothing_yet-Kept : Kept Q nothing_yet
  unfolding nothing_yet
  nothing_yet-Kept g m = elim m [ ]

Counted-IsCovered :
    {l l' : Latest} (day : ℕ) (g : GrantRecord) → Counted l day g l' → IsCovered l' g day
Counted-IsCovered day g (fresh _ e) =
    rw e (record { latest_day = day; is_day = refl; older_or_kept = inr (refl, first refl) })
Counted-IsCovered {l} day g (tied at e) = rw e (record {
  latest_day = day;
  is_day = at;
  older_or_kept = inr (refl, In-append_last l.grants g);
})
Counted-IsCovered day g (older d at lt e) =
    rw e (record { latest_day = d; is_day = at; older_or_kept = inl lt })

Counted-keeps_IsCovered :
    {l l' : Latest} (day : ℕ) (g : GrantRecord) {o : GrantRecord} {d : ℕ}
    → Counted l day g l'
    → IsCovered l o d
    → IsCovered l' o d
Counted-keeps_IsCovered day g (fresh bound e) c = rw e (record {
  latest_day = day;
  is_day = refl;
  older_or_kept = inl (ground (arith, bound c.latest_day c.is_day));
})
Counted-keeps_IsCovered {l} day g (tied at e) c = rw e (record {
  latest_day = c.latest_day;
  is_day = c.is_day;
  older_or_kept = elim c.older_or_kept [
    | inl lt ↦ inl lt
    | inr (same, m) ↦ inr (same, In-append_left l.grants (g ∷ []) m)
  ];
})
Counted-keeps_IsCovered day g (older d at lt e) c = rw e c

Scanned-keeps_IsCovered :
    {body : GrantRecord → Option Act} {gs : List GrantRecord} {l l' : Latest} {o : GrantRecord}
    {d : ℕ}
    → Scanned body gs l l'
    → IsCovered l o d
    → IsCovered l' o d
Scanned-keeps_IsCovered done c = c
Scanned-keeps_IsCovered (skipped p s) c = Scanned-keeps_IsCovered s c
Scanned-keeps_IsCovered (noted {g} {l} day p s) c =
    Scanned-keeps_IsCovered s (Counted-keeps_IsCovered day g (counted_cases l day g) c)

-- Each grant that the body counts at a day is older than the latest ones, or one of them.
pub Scanned-IsCovered :
    {body : GrantRecord → Option Act} {gs : List GrantRecord} {l l' : Latest} {o : GrantRecord}
    {d : ℕ}
    → Scanned body gs l l'
    → In o gs
    → body o ≡ some (note d)
    → IsCovered l' o d
Scanned-IsCovered done m q = elim m [ ]
Scanned-IsCovered (skipped p s) (first e) q = absurd (cc (rw e at q))
Scanned-IsCovered (skipped p s) (later m) q = Scanned-IsCovered s m q
Scanned-IsCovered {d} (noted {g} {l} day p s) (first e) q =
    let same : day ≡ d = cc (p, rw e at q) in
    Scanned-keeps_IsCovered s (rw (e, ← same) (Counted-IsCovered day g (counted_cases l day g)))
Scanned-IsCovered (noted day p s) (later m) q = Scanned-IsCovered s m q

-- The body returned early at none of them.
pub Scanned-never_stops :
    {body : GrantRecord → Option Act} {gs : List GrantRecord} {l l' : Latest} {o : GrantRecord}
    → Scanned body gs l l'
    → In o gs
    → body o ≢ some stop
Scanned-never_stops done m q = elim m [ ]
Scanned-never_stops (skipped p s) (first e) q = cc (rw e at q)
Scanned-never_stops (skipped p s) (later m) q = Scanned-never_stops s m q
Scanned-never_stops (noted day p s) (first e) q = cc (rw e at q)
Scanned-never_stops (noted day p s) (later m) q = Scanned-never_stops s m q

-- A body that always answers lets the loop run to its end, or to an early return.
pub scan_total :
    (body : GrantRecord → Option Act) (gs : List GrantRecord) (l : Latest)
    → ((g : GrantRecord) → In g gs → (a : Act) × (body g ≡ some a))
    → (r : Option Latest) × (scan body gs l ≡ some r)
unfolding scan
scan_total body [] l answers = (some l, refl)
scan_total body (g ∷ gs) l answers =
    by_act (answers g (first refl)).0 (answers g (first refl)).1
      (λ m. scan_total body gs m (λ o k. answers o (later k)))
  where
    by_act :
        (a : Act)
        → body g ≡ some a
        → ((m : Latest) → (r : Option Latest) × (scan body gs m ≡ some r))
        → (r : Option Latest) × (scan body (g ∷ gs) l ≡ some r)
    by_act skip p ih = ((ih l).0, rw (p, scan) (ih l).1)
    by_act stop p ih = (none, rw (p, scan) refl)
    by_act (note d) p ih = ((ih (counted l d g)).0, rw (p, scan) (ih (counted l d g)).1)
