-- ===== src/Removal/Index.antt =====
-- The index of the links by their generation, and the map of the removals.
use undergroundbb.Base.{
  ℕ, ◌≡◌, refl, sym, ◌∙◌, ap, ◌⊎◌, inl, inr, List, [], ◌∷◌, some, arith, false, Text, Bool-cases,
  Option-cases, ◌===◌, ◌==◌, ===_iff, ==_iff, In, first, later,
}
use undergroundbb.Grant.Records.{safe_natural}
use undergroundbb.Removal.Verify.{
  RemovalLink, ByGeneration, RemovedAt, link_at, index_links, removed_at, set_removed,
}

-- A link that was given a place keeps it, since no generation is listed twice.
index_links_keeps :
    (index : ByGeneration) (links : List RemovalLink) (final : ByGeneration) (n : ℕ)
    (l : RemovalLink)
    → index_links index links ≡ some final
    → link_at n index ≡ some l
    → link_at n final ≡ some l
unfolding index_links link_at
index_links_keeps index [] final n l e at = ground (arith, e, at)
index_links_keeps index (x ∷ links) final n l e at =
    elim (Option-cases (safe_natural x.generation)) [
      | inl unsafe ↦ absurd (ground (arith, unsafe, e))
      | inr (k, safe) ↦ elim (Option-cases (link_at k index)) [
        | inr (other, taken) ↦ absurd (ground (arith, safe, taken, e))
        | inl free ↦
            let rest : index_links ((k, x) ∷ index) links ≡ some final =
              ground (arith, safe, free, e) in
            elim (Bool-cases (k == n)) [
              | inl same ↦ absurd (cc (at, free, ap (λ j. link_at j index) ((==_iff k n).0 same)))
              | inr apart ↦
                  index_links_keeps ((k, x) ∷ index) links final n l rest
                    (ground (arith, apart, at))
            ]
      ]
    ]

-- Every link stands at its generation.
pub index_links-In :
    (index : ByGeneration) (links : List RemovalLink) (final : ByGeneration) (n : ℕ)
    (l : RemovalLink)
    → index_links index links ≡ some final
    → In l links
    → safe_natural l.generation ≡ some n
    → link_at n final ≡ some l
unfolding index_links link_at
index_links-In index [] final n l e m at = elim m [ ]
index_links-In index (x ∷ links) final n l e m at =
    elim (Option-cases (safe_natural x.generation)) [
      | inl unsafe ↦ absurd (ground (arith, unsafe, e))
      | inr (k, safe) ↦ elim (Option-cases (link_at k index)) [
        | inr (other, taken) ↦ absurd (ground (arith, safe, taken, e))
        | inl free ↦
            let rest : index_links ((k, x) ∷ index) links ≡ some final =
              ground (arith, safe, free, e) in
            elim m [
              | later m' ↦ index_links-In ((k, x) ∷ index) links final n l rest m' at
              | first same ↦
                  let is_n : k ≡ n = cc (safe, at, ap (λ r. safe_natural r.generation) same) in
                  index_links_keeps ((k, x) ∷ index) links final n l rest
                    (ground (arith, (==_iff k n).1 is_n, ap some (sym same)))
            ]
      ]
    ]

-- What stands at a generation is a link of that generation.
pub index_links_from :
    (index : ByGeneration) (links : List RemovalLink) (final : ByGeneration) (n : ℕ)
    (l : RemovalLink)
    → index_links index links ≡ some final
    → link_at n final ≡ some l
    → (link_at n index ≡ some l) ⊎ (In l links × (safe_natural l.generation ≡ some n))
unfolding index_links link_at
index_links_from index [] final n l e at = inl (ground (arith, e, at))
index_links_from index (x ∷ links) final n l e at =
    elim (Option-cases (safe_natural x.generation)) [
      | inl unsafe ↦ absurd (ground (arith, unsafe, e))
      | inr (k, safe) ↦ elim (Option-cases (link_at k index)) [
        | inr (other, taken) ↦ absurd (ground (arith, safe, taken, e))
        | inl free ↦
            elim (index_links_from ((k, x) ∷ index) links final n l (ground (arith, safe, free, e))
              at) [
                | inr (m, is_n) ↦ inr (later m, is_n)
                | inl before ↦ elim (Bool-cases (k == n)) [
                  | inl same ↦
                      let front : some x ≡ some l = ground (arith, same, before) in
                      let found : x ≡ l = cc (front) in
                      inr (
                        first (sym found),
                        ap (λ r. safe_natural r.generation) (sym found)
                            ∙ safe
                            ∙ ap some ((==_iff k n).0 same),
                      )
                  | inr apart ↦ inl (ground (arith, apart, before))
                ]
              ]
      ]
    ]

pub removed_at-set_removed :
    (user : Text) (n : ℕ) (map : RemovedAt) → removed_at user (set_removed user n map) ≡ some n
unfolding removed_at set_removed
removed_at-set_removed user n [] = ground (arith, (===_iff user user).1 refl)
removed_at-set_removed user n (e ∷ map) = elim (Bool-cases (e.0 === user)) [
  | inl same ↦ ground (arith, same, (===_iff user user).1 refl)
  | inr apart ↦ ground (arith, apart, removed_at-set_removed user n map)
]

pub removed_at-set_removed_other :
    (user other : Text) (n : ℕ) (map : RemovedAt)
    → (user === other) ≡ false
    → removed_at other (set_removed user n map) ≡ removed_at other map
unfolding removed_at set_removed
removed_at-set_removed_other user other n [] apart = ground (arith, apart)
removed_at-set_removed_other user other n (e ∷ map) apart = elim (Bool-cases (e.0 === user)) [
  | inl same ↦ ground (arith, same, apart, ap (λ t. t === other) ((===_iff e.0 user).0 same))
  | inr apart_here ↦ elim (Bool-cases (e.0 === other)) [
    | inl hit ↦ ground (arith, apart_here, hit)
    | inr miss ↦
        ground (arith, apart_here, miss, removed_at-set_removed_other user other n map apart)
  ]
]
