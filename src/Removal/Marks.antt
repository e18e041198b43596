-- ===== src/Removal/Marks.antt =====
-- What one generation of a removal history that passes the check holds.
use undergroundbb.Base.{
  ℕ, suc, ◌≡◌, subst, inl, inr, none, some, arith, true, Text, Bool-cases, Option-cases,
  >>=-eq-some,
}
use undergroundbb.Platform.{Platform}
use undergroundbb.Removal.Verify.{
  RemovalLink, VerifyRemovalsInput, ByGeneration, RemovedAt, link_at, set_removed, rekey_kind_ok,
  rekey_signed, verify_rekey_link, removal_signed, record_removal, check_removal, check_link,
  check_generation,
}

-- The link removes the user: it is no re-key, and it names them.
pub record Removes (link : RemovalLink) (user : Text) : Type 0 where
  pub no_rekey : link.rekeyed_user_id ≡ none
  pub names : link.removed_user_id ≡ some user

module _ (platform : Platform) (input : VerifyRemovalsInput) where
  -- The link carries a record of what made the generation, signed by the user that it names: a removal,
  -- or a re-key whose reason and names agree and that removes nobody.
  pub data IsRecorded (generation : ℕ) (link : RemovalLink) : Type 0 where
    removal :
        {remover user signature : Text}
        → Removes link user
        → link.remover_user_id ≡ some remover
        → link.start_signature ≡ some signature
        → removal_signed platform input generation remover user signature ≡ true
        → IsRecorded generation link
    rekey :
        {remover member reason signature : Text}
        → link.rekeyed_user_id ≡ some member
        → link.removed_user_id ≡ none
        → link.remover_user_id ≡ some remover
        → link.start_signature ≡ some signature
        → link.rekey_reason ≡ some reason
        → rekey_kind_ok (some reason) remover member ≡ true
        → rekey_signed platform input generation remover member (some reason) signature ≡ true
        → IsRecorded generation link

  -- The map after the link: the removed user, if any, is set to the generation.
  pub data Marks (generation : ℕ) (link : RemovalLink) (before : RemovedAt)
      : RemovedAt → Type 0 where
    marked :
        {user : Text}
        → Removes link user
        → Marks generation link before (set_removed user generation before)
    unmarked :
        {member : Text} → link.rekeyed_user_id ≡ some member → Marks generation link before before

  verify_rekey_link_sound :
      (generation : ℕ) (link : RemovalLink) (member : Text)
      → link.rekeyed_user_id ≡ some member
      → verify_rekey_link platform input generation link member ≡ true
      → IsRecorded generation link
  unfolding verify_rekey_link rekey_kind_ok
  verify_rekey_link_sound generation link member rekeyed e =
      elim (Option-cases link.remover_user_id) [
        | inl absent ↦ absurd (ground (arith, absent, e))
        | inr (remover, by) ↦ elim (Option-cases link.start_signature) [
          | inl absent ↦ absurd (ground (arith, by, absent, e))
          | inr (signature, signed) ↦ elim (Option-cases link.removed_user_id) [
            | inr (user, also) ↦ absurd (ground (arith, by, signed, also, e))
            | inl nobody ↦ elim (Option-cases link.rekey_reason) [
              | inl absent ↦ absurd (ground (arith, by, signed, nobody, absent, e))
              | inr (reason, why) ↦
                  let facts : (rekey_kind_ok (some reason) remover member ≡ true)
                      × (rekey_signed platform input generation remover member (some reason)
                            signature
                          ≡ true) =
                    ground (arith, by, signed, nobody, why, e) in
                  rekey rekeyed nobody by signed why facts.0 facts.1
            ]
          ]
        ]
      ]

  check_removal_sound :
      (generation : ℕ) (link : RemovalLink) (before after : RemovedAt)
      → link.rekeyed_user_id ≡ none
      → check_removal platform input generation link before ≡ some after
      → IsRecorded generation link × Marks generation link before after
  unfolding check_removal record_removal
  check_removal_sound generation link before after plain e =
      let (remover, by, e1) = >>=-eq-some link.remover_user_id _ e in
      let (user, names, e2) = >>=-eq-some link.removed_user_id _ e1 in
      let (signature, signed, e3) = >>=-eq-some link.start_signature _ e2 in
      elim (Bool-cases (removal_signed platform input generation remover user signature)) [
        | inr unsigned ↦ absurd (ground (arith, unsigned, e3))
        | inl verifies ↦
            let removes : Removes link user = record { no_rekey = plain; names = names } in
            let ends : set_removed user generation before ≡ after = ground (arith, verifies, e3) in
            (
              removal removes by signed verifies,
              subst (Marks generation link before) ends (marked removes),
            )
      ]

  pub check_generation_sound :
      (index : ByGeneration) (n : ℕ) (before after : RemovedAt)
      → check_generation platform input index n before ≡ some after
      → (link : RemovalLink) × (link_at n index ≡ some link)
        × IsRecorded (suc n) link
        × Marks (suc n) link before after
  unfolding check_generation check_link
  check_generation_sound index n before after e = elim (Option-cases (link_at n index)) [
    | inl absent ↦ absurd (ground (arith, absent, e))
    | inr (link, at) ↦ elim (Option-cases link.rekeyed_user_id) [
      | inl plain ↦
          let (recorded, marks) =
            check_removal_sound (suc n) link before after plain (ground (arith, at, plain, e)) in
          (link, at, recorded, marks)
      | inr (member, rekeyed) ↦
          elim (Bool-cases (verify_rekey_link platform input (suc n) link member)) [
            | inr bad ↦ absurd (ground (arith, at, rekeyed, bad, e))
            | inl good ↦
                let ends : before ≡ after = ground (arith, at, rekeyed, good, e) in
                (
                  link,
                  at,
                  verify_rekey_link_sound (suc n) link member rekeyed good,
                  subst (Marks (suc n) link before) ends (unmarked rekeyed),
                )
          ]
    ]
  ]
