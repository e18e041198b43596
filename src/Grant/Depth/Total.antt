-- ===== src/Grant/Depth/Total.antt =====
-- Where no claim rests on a designation dated after it, the recursion ends.
use undergroundbb.Wire.Encoding.{decode}
use undergroundbb.Grant.Current.{grantor_note, signer_note}
use undergroundbb.Grant.Verify.{
  is_role, duplicated, is_elevated, verify_by_grantor, verify_self_demotion, compute_signed,
  GrantChainResult, verify_one, verify_grant_chain, verdicts, compute, is_admin, body_signer,
  body_grantor, or_empty,
}
use undergroundbb.Grant.SortKey.{ParsedKey, parse_sort_key}
use undergroundbb.Grant.Records.{Party, GrantVerdict, GrantRecord, GrantChainInput}
use undergroundbb.Platform.{Platform}
use undergroundbb.Base.{
  codes, ===_iff, not, Bytes, ◌∷◌, List, inr, ◌===◌, inl, Option-cases, In, ℕ, zero, suc, refl, [],
  first, later, ◌<◌, ◌≡◌, Option, some, arith,
}
use undergroundbb.Grant.Depth.Hops.{
  Answers, bind-Answers, if_Answers, answered, rank, DesignationsPrecede, claim-Answers,
  chain-Answers, demotion_body-Answers, grantor_body-Answers, rank_of_day, rank_by_another,
}

module _ (platform : Platform) (input : GrantChainInput) where
  compute-Answers :
      (rec : GrantRecord → Option GrantVerdict) (g : GrantRecord)
      → DesignationsPrecede platform input
      → In g input.grants
      → ((o : GrantRecord)
          → In o input.grants
          → rank platform input o < rank platform input g
          → Answers (rec o))
      → Answers (compute platform input rec g)
  unfolding compute compute_signed verify_self_demotion verify_by_grantor
  compute-Answers rec g order m lower =
      if_Answers (duplicated g.sort_key input.grants) (λ _. answered _)
        (λ _. elim (Option-cases (parse_sort_key platform g.sort_key)) [
          | inl malformed ↦ rw malformed (answered _)
          | inr (key, parses) ↦ rw parses (
              if_Answers (not (key.subject === g.subject_user_id)) (λ _. answered _)
                (λ _.
                  if_Answers (not (is_role g.granted_role)) (λ _. answered _)
                    (λ _. elim (Option-cases (decode platform (some g.signature))) [
                      | inl malformed ↦ rw malformed (answered _)
                      | inr (sig, decodes) ↦ rw decodes (signed_answers key parses sig)
                    ])))
        ])
    where
      signed_answers :
          (key : ParsedKey)
          → parse_sort_key platform g.sort_key ≡ some key
          → (sig : Bytes) → Answers (compute_signed platform input rec g key.day sig)
      signed_answers key parses sig =
          if_Answers (not (or_empty g.via_designation === []))
            (λ claim.
              claim-Answers platform input rec (rank platform input g) lower g key.day sig
                (λ d q found q_parses. omega (
                  arith,
                  rank_of_day platform input g key parses,
                  order.in_order g d key q m
                      (λ empty.
                        ground (arith, claim, (===_iff (or_empty g.via_designation) []).1 empty))
                      found parses q_parses,
                )))
            (λ _.
              if_Answers (g.sort_key === input.anchor.root_grant_sort_key) (λ _. answered _)
                (λ _.
                  if_Answers (or_empty g.grantor_grant_ref === []) (λ _. answered _)
                    (λ _.
                      if_Answers (g.grantor_user_id === g.subject_user_id)
                        (λ _.
                          if_Answers (not (g.granted_role === codes "member")) (λ _. answered _)
                            (λ _.
                              chain-Answers platform input rec (rank platform input g) lower
                                Party.signer is_elevated (or_empty g.grantor_grant_ref) _
                                g.subject_user_id key.day
                                (body_signer platform input g.sort_key key.day)
                                (signer_note platform input g.sort_key)
                                (rank_of_day platform input g key parses)
                                (λ o _.
                                  demotion_body-Answers platform input rec (rank platform input g)
                                    lower g.sort_key key.day o)))
                        (λ other.
                          chain-Answers platform input rec (rank platform input g) lower
                            Party.grantor is_admin (or_empty g.grantor_grant_ref) _
                            g.grantor_user_id key.day (body_grantor platform input rec key.day)
                            (grantor_note platform input rec)
                            (rank_of_day platform input g key parses)
                            (grantor_body-Answers platform input rec (rank platform input g) lower
                              key.day (rank_by_another platform input g key parses other))))))

  -- If every claim is dated on or after the designation it cites, a depth above a row's rank is
  -- enough for a verdict on it.
  pub verify_one_total :
      DesignationsPrecede platform input
      → (depth : ℕ) (g : GrantRecord) → In g input.grants
      → rank platform input g < depth
      → (v : GrantVerdict) × (verify_one platform input depth g ≡ some v)
  unfolding verify_one
  verify_one_total order zero g m fits = absurd (omega arith)
  verify_one_total order (suc depth) g m fits =
      compute-Answers (verify_one platform input depth) g order m
        (λ o k lt. verify_one_total order depth o k (omega arith))

  verdicts_total :
      DesignationsPrecede platform input
      → (depth : ℕ) → ((g : GrantRecord) → In g input.grants → rank platform input g < depth)
      → (gs : List GrantRecord) → ((g : GrantRecord) → In g gs → In g input.grants)
      → Answers (verdicts platform input depth gs)
  unfolding verdicts
  verdicts_total order depth fits [] sub = answered []
  verdicts_total order depth fits (g ∷ gs) sub =
      let listed = sub g (first refl) in
      bind-Answers (verify_one platform input depth g) _
        (verify_one_total order depth g listed (fits g listed))
        (λ v _.
          bind-Answers (verdicts platform input depth gs) _
            (verdicts_total order depth fits gs (λ o k. sub o (later k))) (λ rest _. answered _))

-- If every claim is dated on or after the designation it cites, `verifyGrantChain` returns a result,
-- within any depth above the ranks of the rows.
pub verify_grant_chain_total :
    (platform : Platform) (input : GrantChainInput)
    → DesignationsPrecede platform input
    → (depth : ℕ) → ((g : GrantRecord) → In g input.grants → rank platform input g < depth)
    → (r : GrantChainResult) × (verify_grant_chain platform depth input ≡ some r)
unfolding verify_grant_chain
verify_grant_chain_total platform input order depth fits =
    bind-Answers (verdicts platform input depth input.grants) _
      (verdicts_total platform input order depth fits input.grants (λ g m. m))
      (λ found _. answered _)
