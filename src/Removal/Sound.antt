-- ===== src/Removal/Sound.antt =====
-- What a removal history that passes the check proves, and what its map says.
use undergroundbb.Base.{
  ap, ◌∙◌, sym, ◌↔◌, ℕ, suc, ◌≤◌, ◌<◌, ◌≡◌, inl, inr, List, [], some, arith, Text, Option-cases, In,
}
use undergroundbb.Platform.{Platform}
use undergroundbb.Grant.Records.{safe_natural}
use undergroundbb.Removal.Verify.{
  RemovalLink, VerifyRemovalsInput, ByGeneration, RemovedAt, link_at, removed_at, index_links,
  check_from, verify_removals,
}
use undergroundbb.Removal.Index.{index_links-In, index_links_from}
use undergroundbb.Removal.Marks.{Removes, IsRecorded}
use undergroundbb.Removal.Run.{RemovesAt, check_from_each, check_from_entry, check_from_removal}

-- The list holds a link of the generation that carries a verified record of what made the next one.
pub IsCovered : Platform → VerifyRemovalsInput → ℕ → Type 0
IsCovered platform input n =
    (link : RemovalLink) × In link input.links
    × (safe_natural link.generation ≡ some n)
    × IsRecorded platform input (suc n) link

-- A link of the list, of the generation, removes the user.
pub IsRemoval : VerifyRemovalsInput → ℕ → Text → Type 0
IsRemoval input n user =
    (link : RemovalLink) × In link input.links
    × (safe_natural link.generation ≡ some n)
    × Removes link user

-- The index of the links of a history that passes, and the run over it.
runs :
    (platform : Platform) (input : VerifyRemovalsInput) (removed : RemovedAt) (current : ℕ)
    → verify_removals platform input ≡ some removed
    → safe_natural input.current_generation ≡ some current
    → (index : ByGeneration) × (index_links [] input.links ≡ some index)
      × (check_from platform input index 0 current [] ≡ some removed)
unfolding verify_removals
runs platform input removed current e safe = elim (Option-cases (index_links [] input.links)) [
  | inl bad ↦ absurd (ground (arith, safe, bad, e))
  | inr (index, indexed) ↦ (index, indexed, ground (arith, safe, indexed, e))
]

-- What stands in the finished index is a listed link of that generation.
link_at-In :
    (links : List RemovalLink) (index : ByGeneration) (n : ℕ) (link : RemovalLink)
    → index_links [] links ≡ some index
    → link_at n index ≡ some link
    → In link links × (safe_natural link.generation ≡ some n)
unfolding link_at
link_at-In links index n link indexed at =
    elim (index_links_from [] links index n link indexed at) [
      | inl nothing ↦ absurd (cc nothing)
      | inr found ↦ found
    ]

-- In a removal history that passes, every generation below the caller's own has a listed link with a
-- record, signed by the user that it names, of the removal or the re-key that ended it.
pub verify_removals_complete :
    (platform : Platform) (input : VerifyRemovalsInput) (removed : RemovedAt) (current n : ℕ)
    → verify_removals platform input ≡ some removed
    → safe_natural input.current_generation ≡ some current
    → n < current
    → IsCovered platform input n
unfolding IsCovered
verify_removals_complete platform input removed current n e safe low =
    let (index, indexed, ran) = runs platform input removed current e safe in
    let (link, at, recorded) =
      check_from_each platform input index 0 current [] removed n ran (omega arith)
        (omega (arith, low)) in
    let (m, is_n) = link_at-In input.links index n link indexed at in (link, m, is_n, recorded)

-- A generation that the map of a removal history that passes gives to a user was minted by the removal
-- of that user, below the caller's generation.
verify_removals_entry :
    (platform : Platform) (input : VerifyRemovalsInput) (removed : RemovedAt) (current : ℕ)
    (user : Text) (g : ℕ)
    → verify_removals platform input ≡ some removed
    → safe_natural input.current_generation ≡ some current
    → removed_at user removed ≡ some g
    → (n : ℕ) × (n < current) × (g ≡ suc n) × IsRemoval input n user
unfolding IsRemoval RemovesAt removed_at
verify_removals_entry platform input removed current user g e safe at =
    let (index, indexed, ran) = runs platform input removed current e safe in
    elim (check_from_entry platform input index 0 current [] removed user g ran at) [
      | inl nothing ↦ absurd (cc nothing)
      | inr (n, low, is, (link, stands, removes)) ↦
          let (m, is_n) = link_at-In input.links index n link indexed stands in
          (n, omega (arith, low), is, (link, m, is_n, removes))
    ]

-- In a removal history that passes, a user whom a listed link removes, below the caller's generation,
-- has an entry in the map that is at least the generation which that removal minted.
verify_removals_removal :
    (platform : Platform) (input : VerifyRemovalsInput) (removed : RemovedAt) (current : ℕ)
    (user : Text) (n : ℕ)
    → verify_removals platform input ≡ some removed
    → safe_natural input.current_generation ≡ some current
    → n < current
    → IsRemoval input n user
    → (g : ℕ) × (removed_at user removed ≡ some g) × (suc n ≤ g)
unfolding IsRemoval RemovesAt
verify_removals_removal platform input removed current user n e safe low (link, m, is_n, removes) =
    let (index, indexed, ran) = runs platform input removed current e safe in
    check_from_removal platform input index 0 current [] removed user n ran (omega arith)
      (omega (arith, low))
      (link, index_links-In [] input.links index n link indexed m is_n, removes)

-- The newest generation below the caller's that a removal of the user minted.
pub record IsNewestRemoval (input : VerifyRemovalsInput) (current : ℕ) (user : Text) (g : ℕ)
    : Type 0 where
  pub n : ℕ
  pub low : n < current
  pub minted : g ≡ suc n
  pub removal : IsRemoval input n user
  pub newest : (m : ℕ) → m < current → IsRemoval input m user → m ≤ n

-- The map of a removal history that passes gives a user a generation exactly if it is the newest one
-- that a removal of that user minted below the caller's generation.
pub verify_removals_newest :
    (platform : Platform) (input : VerifyRemovalsInput) (removed : RemovedAt) (current : ℕ)
    (user : Text) (g : ℕ)
    → verify_removals platform input ≡ some removed
    → safe_natural input.current_generation ≡ some current
    → (removed_at user removed ≡ some g) ↔ IsNewestRemoval input current user g
verify_removals_newest platform input removed current user g e safe = (
  λ at.
      let (n, low, is, removal) =
        verify_removals_entry platform input removed current user g e safe at in
      record {
        n = n;
        low = low;
        minted = is;
        removal = removal;
        newest = λ m below other.
            let (h, found, above) =
              verify_removals_removal platform input removed current user m e safe below other in
            let same : some h ≡ some g = sym found ∙ at in
            let equal : h ≡ g = cc same in omega (arith, is, above, equal);
      },
  λ r.
      let (h, found, above) =
        verify_removals_removal platform input removed current user r.n e safe r.low r.removal in
      let (k, below, is, other) =
        verify_removals_entry platform input removed current user h e safe found in
      let older : k ≤ r.n = r.newest k below other in
      found ∙ ap some (omega (arith, is, above, older, r.minted)),
)
