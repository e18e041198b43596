-- ===== src/Removal/Run.antt =====
-- The loop over the generations of a removal history that passes the check.
use undergroundbb.Base.{
  ==_iff, ◌==◌, ℕ, zero, suc, ◌+◌, ◌≤◌, ◌<◌, ◌≡◌, refl, sym, ◌∙◌, ap, subst, ◌⊎◌, inl, inr, some,
  arith, Text, Bool-cases, Option-cases, ◌===◌, ===_iff,
}
use undergroundbb.Platform.{Platform}
use undergroundbb.Removal.Verify.{
  RemovalLink, VerifyRemovalsInput, ByGeneration, RemovedAt, link_at, removed_at, set_removed,
  check_generation, check_from,
}
use undergroundbb.Removal.Index.{removed_at-set_removed, removed_at-set_removed_other}
use undergroundbb.Removal.Marks.{
  Removes, IsRecorded, Marks, marked, unmarked, check_generation_sound,
}

-- What a step does to a user's entry: nothing, or it sets it to the generation that the link made.
Marks-removed_at :
    (platform : Platform) (input : VerifyRemovalsInput) (generation : ℕ) (link : RemovalLink)
    (before after : RemovedAt) (user : Text)
    → Marks platform input generation link before after
    → (Removes link user × (removed_at user after ≡ some generation))
      ⊎ ((Removes link user → ⊥) × (removed_at user after ≡ removed_at user before))
Marks-removed_at platform input generation link before after user (unmarked rekeyed) =
    inr (λ r. cc (r.no_rekey, rekeyed), refl)
Marks-removed_at platform input generation link before after user (marked {user = other} removes) =
    elim (Bool-cases (other === user)) [
      | inl same ↦
          let is : other ≡ user = (===_iff other user).0 same in
          inl (
            subst (Removes link) is removes,
            subst (λ u. removed_at u (set_removed other generation before) ≡ some generation) is
                (removed_at-set_removed other generation before),
          )
      | inr apart ↦ inr (
        λ r. cc (apart, (===_iff other user).1 (cc (removes.names, r.names))),
        removed_at-set_removed_other other user generation before apart,
      )
    ]

module _ (platform : Platform) (input : VerifyRemovalsInput) (index : ByGeneration) where
  -- The link that stands at the generation removes the user.
  unfoldable pub RemovesAt : ℕ → Text → Type 0
  RemovesAt m user = (link : RemovalLink) × (link_at m index ≡ some link) × Removes link user

  pub check_from_each :
      (n left : ℕ) (before after : RemovedAt) (m : ℕ)
      → check_from platform input index n left before ≡ some after
      → n ≤ m
      → m < n + left
      → (link : RemovalLink) × (link_at m index ≡ some link)
        × IsRecorded platform input (suc m) link
  unfolding check_from
  check_from_each n zero before after m e low high = absurd (omega (arith, low, high))
  check_from_each n (suc left) before after m e low high =
      elim (Option-cases (check_generation platform input index n before)) [
        | inl failed ↦ absurd (ground (arith, failed, e))
        | inr (next, passed) ↦ elim (Bool-cases (n == m)) [
          | inl same ↦
              let (link, at, recorded, marks) =
                check_generation_sound platform input index n before next passed in
              subst
                (λ k.
                  (link : RemovalLink) × (link_at k index ≡ some link)
                  × IsRecorded platform input (suc k) link)
                ((==_iff n m).0 same) (link, at, recorded)
          | inr apart ↦
              check_from_each (suc n) left next after m (ground (arith, passed, e))
                (ground (arith, apart, low)) (omega (arith, high))
        ]
      ]

  -- Every entry of the result was there, or is what a removal minted.
  pub check_from_entry :
      (n left : ℕ) (before after : RemovedAt) (user : Text) (g : ℕ)
      → check_from platform input index n left before ≡ some after
      → removed_at user after ≡ some g
      → (removed_at user before ≡ some g)
        ⊎ ((m : ℕ) × (m < n + left) × (g ≡ suc m) × RemovesAt m user)
  unfolding check_from RemovesAt
  check_from_entry n zero before after user g e at = inl (ground (arith, e, at))
  check_from_entry n (suc left) before after user g e at =
      elim (Option-cases (check_generation platform input index n before)) [
        | inl failed ↦ absurd (ground (arith, failed, e))
        | inr (next, passed) ↦
            elim (check_from_entry (suc n) left next after user g (ground (arith, passed, e)) at) [
              | inr (m, low, is, removes) ↦ inr (m, omega (arith, low), is, removes)
              | inl earlier ↦
                  let (link, stands, recorded, marks) =
                    check_generation_sound platform input index n before next passed in
                  elim (Marks-removed_at platform input (suc n) link before next user marks) [
                    | inl (removes, set) ↦
                        inr (n, omega arith, cc (set, earlier), (link, stands, removes))
                    | inr (keeps, same) ↦ inl (sym same ∙ earlier)
                  ]
            ]
      ]

  -- An entry only grows.
  check_from_grows :
      (n left : ℕ) (before after : RemovedAt) (user : Text) (g : ℕ)
      → check_from platform input index n left before ≡ some after
      → removed_at user before ≡ some g
      → g ≤ n
      → (h : ℕ) × (removed_at user after ≡ some h) × (g ≤ h)
  unfolding check_from
  check_from_grows n zero before after user g e at low = (g, ground (arith, e, at), omega arith)
  check_from_grows n (suc left) before after user g e at low =
      elim (Option-cases (check_generation platform input index n before)) [
        | inl failed ↦ absurd (ground (arith, failed, e))
        | inr (next, passed) ↦
            let rest : check_from platform input index (suc n) left next ≡ some after =
              ground (arith, passed, e) in
            let (link, stands, recorded, marks) =
              check_generation_sound platform input index n before next passed in
            elim (Marks-removed_at platform input (suc n) link before next user marks) [
              | inl (removes, set) ↦
                  let (h, is, above) =
                    check_from_grows (suc n) left next after user (suc n) rest set (omega arith) in
                  (h, is, omega (arith, above, low))
              | inr (keeps, same) ↦
                  check_from_grows (suc n) left next after user g rest (same ∙ at)
                    (omega (arith, low))
            ]
      ]

  -- Every removal leaves an entry that is not older.
  pub check_from_removal :
      (n left : ℕ) (before after : RemovedAt) (user : Text) (m : ℕ)
      → check_from platform input index n left before ≡ some after
      → n ≤ m
      → m < n + left
      → RemovesAt m user
      → (h : ℕ) × (removed_at user after ≡ some h) × (suc m ≤ h)
  unfolding check_from RemovesAt
  check_from_removal n zero before after user m e low high removes =
      absurd (omega (arith, low, high))
  check_from_removal n (suc left) before after user m e low high (link', at, removes) =
      elim (Option-cases (check_generation platform input index n before)) [
        | inl failed ↦ absurd (ground (arith, failed, e))
        | inr (next, passed) ↦
            let rest : check_from platform input index (suc n) left next ≡ some after =
              ground (arith, passed, e) in
            elim (Bool-cases (n == m)) [
              | inr apart ↦
                  check_from_removal (suc n) left next after user m rest
                    (ground (arith, apart, low)) (omega (arith, high)) (link', at, removes)
              | inl same ↦
                  let (link, stands, recorded, marks) =
                    check_generation_sound platform input index n before next passed in
                  let is_n : n ≡ m = (==_iff n m).0 same in
                  elim (Marks-removed_at platform input (suc n) link before next user marks) [
                    | inl (removes', set) ↦
                        let (h, is, above) =
                          check_from_grows (suc n) left next after user (suc n) rest set
                            (omega arith) in
                        (h, is, omega (arith, above, is_n))
                    | inr (keeps, unchanged) ↦ absurd (
                        keeps (
                          subst (λ l. Removes l user)
                            (cc (at, stands, ap (λ k. link_at k index) is_n)) removes))
                  ]
            ]
      ]
