-- ===== src/History/Covered.antt =====
-- `signingKeysOn` leaves no day without a key.
use undergroundbb.Base.{
  ◌≡◌, refl, ◌<<◌, true, false, List, [], ◌∷◌, ◌++◌, Option, none, some, arith, Text, Bytes,
  Bool-cases, Option-cases, In, first, later, inl, inr,
}
use undergroundbb.History.Records.{OwnKeyLink, OwnKeyHistory}
use undergroundbb.History.Query.{since, last_link, superseded_on, current_on, signing_keys_on}

<<-asymmetric : (a b : Text) → (a << b) ≡ true → (b << a) ≡ false
unfolding ◌<<◌
<<-asymmetric a [] e = cc
<<-asymmetric [] (y ∷ b) e = refl
<<-asymmetric (x ∷ a) (y ∷ b) e = ground (arith, e, <<-asymmetric a b)

In-append : {A : Type 0} {x : A} (ys : List A) {xs : List A} → In x xs → In x (ys ++ xs)
In-append [] m = m
In-append (y ∷ ys) m = later (In-append ys m)

module _ (day : Text) where
  superseded_covers :
      (before : Option Text) (links : List OwnKeyLink) (last : OwnKeyLink)
      → since before day ≡ true
      → last_link links ≡ some last
      → (last.day << day) ≡ false
      → (k : Bytes) × In k (superseded_on day before links)
  unfolding since superseded_on last_link
  superseded_covers before [] last held at e = cc
  superseded_covers before (l ∷ []) last held at e =
      let same : l ≡ last = cc at in
      let own : (l.day << day) ≡ false = rw same e in (l.old_signing, rw (own, held) (first refl))
  superseded_covers before (l ∷ m ∷ ls) last held at e = elim (Bool-cases (l.day << day)) [
    | inl over ↦
        let (k, found) =
          superseded_covers (some l.day) (m ∷ ls) last (rw (<<-asymmetric l.day day over) refl) at
            e in
        (k, rw over found)
    | inr on_time ↦ (l.old_signing, rw (on_time, held) (first refl))
  ]

-- For any history and any day there is a key that may have signed on it: the intervals of the keys
-- leave no gap between them.
pub signing_keys_on-covers :
    (history : OwnKeyHistory) (current : Bytes) (day : Text)
    → (k : Bytes) × In k (signing_keys_on history current day)
unfolding signing_keys_on current_on since
signing_keys_on-covers history current day = elim (Option-cases (last_link history.links)) [
  | inl no_link ↦ (current, rw no_link (first refl))
  | inr (last, at) ↦ elim (Bool-cases (day << last.day)) [
    | inr late ↦ (current, rw (at, late) (first refl))
    | inl early ↦
        let (k, m) =
          superseded_covers day none history.links last refl at
            (<<-asymmetric day last.day early) in
        (k, In-append (current_on (last_link history.links) current day) m)
  ]
]
