-- ===== src/History/Held.antt =====
-- The keys that `signingKeysOn` gives for a day are those whose interval has the day in it.
use undergroundbb.History.Records.{OwnKeyLink, OwnKeyHistory}
use undergroundbb.History.Query.{last_link, superseded_on, since, signing_keys_on, current_on}
use undergroundbb.Base.{
  refl, [], later, arith, inl, first, false, Bool-cases, ◌∷◌, ◌<<◌, true, some, none, inr, ◌⊎◌, ◌≡◌,
  ◌++◌, Option, Bytes, Text, List, In,
}
use undergroundbb.History.Chain.{Stands, here, there}

-- The key is the current one, and the day is not before the last rotation, if there is one; or the key
-- was replaced by a rotation, the day is not after that rotation, and it is not before the rotation in
-- front of that, if there is one.
pub data MayHaveSigned (history : OwnKeyHistory) (current : Bytes) (day : Text) (key : Bytes)
    : Type 0 where
  as_current :
      key ≡ current
      → ((last : OwnKeyLink) → last_link history.links ≡ some last → (day << last.day) ≡ false)
      → MayHaveSigned history current day key
  as_superseded :
      {introduced : Option Text} {link : OwnKeyLink}
      → Stands link introduced none history.links
      → key ≡ link.old_signing
      → (link.day << day) ≡ false
      → ((d : Text) → introduced ≡ some d → (day << d) ≡ false)
      → MayHaveSigned history current day key

record IsSuperseded (day : Text) (before : Option Text) (links : List OwnKeyLink) (key : Bytes)
    : Type 0 where
  introduced : Option Text
  link : OwnKeyLink
  stands : Stands link introduced before links
  is_old_key : key ≡ link.old_signing
  not_after : (link.day << day) ≡ false
  not_before : since introduced day ≡ true

since_sound :
    (introduced : Option Text) (day : Text)
    → since introduced day ≡ true
    → (d : Text) → introduced ≡ some d
    → (day << d) ≡ false
unfolding since
since_sound introduced day e d at = ground (arith, e, at)

further :
    (day : Text) (before : Option Text) (l : OwnKeyLink) (ls : List OwnKeyLink) (key : Bytes)
    → IsSuperseded day (some l.day) ls key
    → IsSuperseded day before (l ∷ ls) key
further day before l ls key s = record {
  introduced = s.introduced;
  link = s.link;
  stands = there s.stands;
  is_old_key = s.is_old_key;
  not_after = s.not_after;
  not_before = s.not_before;
}

-- A candidate is the link's old key, on a day of its interval, or a candidate of the rest.
superseded_on_cases :
    (day : Text) (before : Option Text) (l : OwnKeyLink) (ls : List OwnKeyLink) (key : Bytes)
    → In key (superseded_on day before (l ∷ ls))
    → ((key ≡ l.old_signing) × ((l.day << day) ≡ false) × (since before day ≡ true))
      ⊎ In key (superseded_on day (some l.day) ls)
unfolding superseded_on
superseded_on_cases day before l ls key m = elim (Bool-cases (l.day << day)) [
  | inl over ↦ inr (rw over at m)
  | inr on_time ↦ elim (Bool-cases (since before day)) [
    | inr early ↦ inr (rw (on_time, early) at m)
    | inl held ↦
        let n : In key (l.old_signing ∷ superseded_on day (some l.day) ls) =
          rw (on_time, held) at m in
        elim n [ first same ↦ inl (same, on_time, held) | later k ↦ inr k ]
  ]
]

right_here :
    (day : Text) (before : Option Text) (l : OwnKeyLink) (ls : List OwnKeyLink) (key : Bytes)
    → key ≡ l.old_signing
    → (l.day << day) ≡ false
    → since before day ≡ true
    → IsSuperseded day before (l ∷ ls) key
right_here day before l ls key same on_time held = record {
  introduced = before;
  link = l;
  stands = here refl refl;
  is_old_key = same;
  not_after = on_time;
  not_before = held;
}

no_candidate :
    (day : Text) (before : Option Text) (key : Bytes) → ¬ In key (superseded_on day before [])
unfolding superseded_on
no_candidate day before key m = elim m [ ]

superseded_on_sound :
    (day : Text) (before : Option Text) (links : List OwnKeyLink) (key : Bytes)
    → In key (superseded_on day before links)
    → IsSuperseded day before links key
superseded_on_sound day before [] key m = absurd (no_candidate day before key m)
superseded_on_sound day before (l ∷ ls) key m = elim (superseded_on_cases day before l ls key m) [
  | inl (same, on_time, held) ↦ right_here day before l ls key same on_time held
  | inr rest ↦ further day before l ls key (superseded_on_sound day (some l.day) ls key rest)
]

In-append_cases : {A : Type 0} {x : A} (ys xs : List A) → In x (ys ++ xs) → In x ys ⊎ In x xs
In-append_cases [] xs m = inr m
In-append_cases (y ∷ ys) xs (first same) = inl (first same)
In-append_cases (y ∷ ys) xs (later m) = elim (In-append_cases ys xs m) [
  | inl n ↦ inl (later n)
  | inr n ↦ inr n
]

current_on_sound :
    (newest : Option OwnKeyLink) (current : Bytes) (day : Text) (key : Bytes)
    → In key (current_on newest current day)
    → (key ≡ current) × ((last : OwnKeyLink) → newest ≡ some last → (day << last.day) ≡ false)
unfolding current_on
current_on_sound none current day key (first same) = (same, λ last e. cc e)
current_on_sound none current day key (later m) = elim m [ ]
current_on_sound (some l) current day key m = elim (Bool-cases (day << l.day)) [
  | inl early ↦ let n : In key [] = rw early at m in elim n [ ]
  | inr late ↦
      let n : In key (current ∷ []) = rw late at m in
      elim n [
        | first same ↦ (same, λ last e. let is : l ≡ last = cc e in rw (← is) late)
        | later k ↦ elim k [ ]
      ]
]

pub signing_keys_on_sound :
    (history : OwnKeyHistory) (current : Bytes) (day : Text) (key : Bytes)
    → In key (signing_keys_on history current day)
    → MayHaveSigned history current day key
unfolding signing_keys_on
signing_keys_on_sound history current day key m =
    elim (In-append_cases (current_on (last_link history.links) current day)
      (superseded_on day none history.links) m) [
        | inl n ↦
            let (same, late) = current_on_sound (last_link history.links) current day key n in
            as_current same late
        | inr n ↦
            let s = superseded_on_sound day none history.links key n in
            as_superseded s.stands s.is_old_key s.not_after
              (since_sound s.introduced day s.not_before)
      ]
