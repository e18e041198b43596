-- ===== src/Grant/Backed.antt =====
-- What a role that `checkMemberRole` calls verified rests on.
use undergroundbb.Grant.Sound.{verify_one_sound}
use undergroundbb.Grant.SortKey.{parse_sort_key}
use undergroundbb.Grant.Judged.{IsRow-valid}
use undergroundbb.Grant.Authority.{grants_to-In}
use undergroundbb.Grant.Scan.Laws.{
  Scanned-IsCovered, nothing_yet-Kept, Scanned-Kept, scan-Scanned, IsCovered,
}
use undergroundbb.Grant.Rules.{Justified, IsDated}
use undergroundbb.Grant.Scan.{nothing_yet, scan, note, grants_to, Latest}
use undergroundbb.Platform.{Platform}
use undergroundbb.Grant.Verify.{
  pin_matched, anchor_valid, GrantChainResult, verify_grant_chain, duplicated, verify_one,
  verdict_of, verdicts,
}
use undergroundbb.Base.{
  In-keep, ap, ◌==◌, ◌<◌, sym, ◌≢◌, ◌∙◌, codes, Option-cases, Option, ===_iff, length, keep, arith,
  subst, ltb, Bool-cases, ◌>>=◌, >>=-eq-some, ◌⊎◌, ◌===◌, ◌∷◌, In, some, ◌≡◌, List, ℕ, Text, refl,
  none, true, false, [], zero, suc, first, later, inl, inr,
}
use undergroundbb.Grant.Records.{GrantVerdict, GrantRecord, GrantChainInput, valid}
use undergroundbb.Grant.Roles.{check_member_role, judge_roster, body_roster, verified}

verdict_of-In :
    (platform : Platform) (input : GrantChainInput) (depth : ℕ) (gs : List GrantRecord)
    (found : List (Text × GrantVerdict)) (key : Text)
    → verdicts platform input depth gs ≡ some found
    → verdict_of key found ≡ some valid
    → (g : GrantRecord) × In g gs
      × (g.sort_key ≡ key)
      × (verify_one platform input depth g ≡ some valid)
unfolding verdicts verdict_of
verdict_of-In platform input depth [] found key e v =
    let none_found : [] ≡ found = cc in absurd (cc (rw (← none_found) at v))
verdict_of-In platform input depth (g ∷ gs) found key e v =
    let (w, own, more) =
      >>=-eq-some (verify_one platform input depth g)
        (λ w. verdicts platform input depth gs >>= λ rest. some ((g.sort_key, w) ∷ rest)) e in
    let (rest, others, all) =
      >>=-eq-some (verdicts platform input depth gs) (λ rest. some ((g.sort_key, w) ∷ rest)) more in
    let same : (g.sort_key, w) ∷ rest ≡ found = cc in
    let here = rw (← same, verdict_of) at v in
    elim (Bool-cases (g.sort_key === key)) [
      | inl hit ↦
          let is_valid : w ≡ valid = ground (arith, hit, here) in
          (g, first refl, (===_iff g.sort_key key).0 hit, cc (own, is_valid))
      | inr miss ↦
          let (o, m, is_key, o_valid) =
            verdict_of-In platform input depth gs rest key others (ground (arith, miss, here)) in
          (o, later m, is_key, o_valid)
    ]

-- Two rows of one sort key that no two places of the list share are the same row.
one_of_few :
    {A : Type 0} (xs : List A) {x y : A} → ltb 1 (length xs) ≡ false → In x xs → In y xs → x ≡ y
one_of_few [] few m n = elim m [ ]
one_of_few (z ∷ []) few (first e) (first e') = e ∙ sym e'
one_of_few (z ∷ []) few (first e) (later n) = elim n [ ]
one_of_few (z ∷ []) few (later m) n = elim m [ ]
one_of_few (z ∷ w ∷ zs) few m n = absurd (ground arith)

unique_row :
    (key : Text) (gs : List GrantRecord) {g o : GrantRecord}
    → duplicated key gs ≡ false
    → In g gs
    → In o gs
    → g.sort_key ≡ key
    → o.sort_key ≡ key
    → g ≡ o
unfolding duplicated
unique_row key gs {g} {o} few m n g_key o_key =
    one_of_few (keep (λ r. r.sort_key === key) gs) few
      (In-keep (λ r. r.sort_key === key) gs m ((===_iff g.sort_key key).1 g_key))
      (In-keep (λ r. r.sort_key === key) gs n ((===_iff o.sort_key key).1 o_key))

-- A row that is looked up as valid is justified.
valid_unique :
    (platform : Platform) (input : GrantChainInput) (depth : ℕ) (g : GrantRecord)
    → verify_one platform input depth g ≡ some valid
    → duplicated g.sort_key input.grants ≡ false
unfolding verify_one
valid_unique platform input zero g e = cc
valid_unique platform input (suc depth) g e =
    let (day, sig, row, signed) =
      IsRow-valid platform input (verify_one platform input depth) g e in
    row.unique

valid_row :
    (platform : Platform) (input : GrantChainInput) (depth : ℕ) (found : List (Text × GrantVerdict))
    (g : GrantRecord)
    → verdicts platform input depth input.grants ≡ some found
    → In g input.grants
    → verdict_of g.sort_key found ≡ some valid
    → (n : ℕ) × (verify_one platform input n g ≡ some valid)
valid_row platform input depth found g e m v =
    let (o, o_in, is_key, o_valid) =
      verdict_of-In platform input depth input.grants found g.sort_key e v in
    (
      depth,
      subst (λ r. verify_one platform input depth r ≡ some valid) (same o o_in is_key o_valid)
          o_valid,
    )
  where
    same :
        (o : GrantRecord)
        → In o input.grants
        → o.sort_key ≡ g.sort_key
        → verify_one platform input depth o ≡ some valid
        → o ≡ g
    same o o_in is_key o_valid =
        unique_row g.sort_key input.grants
          (subst (λ k. duplicated k input.grants ≡ false) is_key
            (valid_unique platform input depth o o_valid))
          o_in m is_key refl

-- What backs a role: no grant and the role of a plain member, or a justified grant of that role, to
-- which every other grant to the user is dated earlier.
pub record IsBacked (platform : Platform) (input : GrantChainInput) (user role : Text)
    (g : GrantRecord) : Type 0 where
  pub listed : In g (grants_to user input.grants)
  pub role_given : g.granted_role ≡ role
  pub justified : Justified platform input g
  pub day : ℕ
  pub dated : IsDated platform input g day
  pub newest :
      (o : GrantRecord) (d : ℕ)
      → In o (grants_to user input.grants)
      → IsDated platform input o d
      → o.sort_key ≢ g.sort_key
      → d < day

roster_note :
    (platform : Platform) (input : GrantChainInput) (o : GrantRecord) (d : ℕ)
    → body_roster platform o ≡ some (note d)
    → IsDated platform input o d
unfolding body_roster
roster_note platform input o d e = elim (Option-cases (parse_sort_key platform o.sort_key)) [
  | inl malformed ↦ absurd (ground (arith, malformed, e))
  | inr (p, parses) ↦ record { key = p; parses = parses; is_day = ground (arith, parses, e) }
]

roster_dated :
    (platform : Platform) (input : GrantChainInput) (o : GrantRecord) (d : ℕ)
    → IsDated platform input o d
    → body_roster platform o ≡ some (note d)
unfolding body_roster
roster_dated platform input o d h = ground (arith, h.parses, h.is_day)

only_row : {o g : GrantRecord} → In o (g ∷ []) → o.sort_key ≡ g.sort_key
only_row (first e) = rw e
only_row (later m) = elim m [ ]

roster_newest :
    (platform : Platform) (input : GrantChainInput) (l : Latest) (g o : GrantRecord) (day d : ℕ)
    → l.grants ≡ g ∷ []
    → l.day ≡ some day
    → IsCovered l o d
    → o.sort_key ≢ g.sort_key
    → d < day
roster_newest platform input l g o day d only at c other = elim c.older_or_kept [
  | inl lt ↦ ground (arith, at, c.is_day)
  | inr (same, m) ↦ absurd (other (only_row (rw only at m)))
]

roster-IsBacked :
    (platform : Platform) (input : GrantChainInput) (user role : Text) (l : Latest)
    (g : GrantRecord)
    → scan (body_roster platform) (grants_to user input.grants) nothing_yet ≡ some (some l)
    → l.grants ≡ g ∷ []
    → g.granted_role ≡ role
    → (In g input.grants → (n : ℕ) × (verify_one platform input n g ≡ some valid))
    → IsBacked platform input user role g
roster-IsBacked platform input user role l g ran only given is_valid =
    let s = scan-Scanned (body_roster platform) (grants_to user input.grants) nothing_yet l ran in
    let (day, at, facts) =
      Scanned-Kept (λ o d. IsDated platform input o d × In o (grants_to user input.grants))
        (λ o d m e. (roster_note platform input o d e, m)) (nothing_yet-Kept _) s g
        (rw only (first refl)) in
    let (depth, v) = is_valid (grants_to-In user input.grants facts.1) in
    record {
      listed = facts.1;
      role_given = given;
      justified = verify_one_sound platform input depth g v;
      day = day;
      dated = facts.0;
      newest = λ o d m dated other.
          roster_newest platform input l g o day d only at
            (Scanned-IsCovered s m (roster_dated platform input o d dated)) other;
    }

judged_row :
    (platform : Platform) (result : GrantChainResult) (role : Text) (l : Option Latest)
    → judge_roster platform result role l ≡ verified
    → (found : Latest) × (g : GrantRecord) × (l ≡ some found)
      × (found.grants ≡ g ∷ [])
      × (verdict_of g.sort_key result.verdicts ≡ some valid)
      × (g.granted_role ≡ role)
unfolding judge_roster
judged_row platform result role none e = cc
judged_row platform result role (some l) e = by_list l.grants refl
  where
    one_row :
        (g : GrantRecord) (more : List GrantRecord)
        → l.grants ≡ g ∷ more
        → (more ≡ [])
          × (verdict_of g.sort_key result.verdicts ≡ some valid)
          × ((g.granted_role === role) ≡ true)
    one_row g more p = ground (arith, p, e)

    by_list :
        (gs : List GrantRecord)
        → l.grants ≡ gs
        → (found : Latest) × (g : GrantRecord) × (some l ≡ some found)
          × (found.grants ≡ g ∷ [])
          × (verdict_of g.sort_key result.verdicts ≡ some valid)
          × (g.granted_role ≡ role)
    by_list [] p = absurd (ground (arith, p, e))
    by_list (g ∷ more) p =
        let (alone, is_valid, given) = one_row g more p in
        (l, g, refl, rw (← alone) p, is_valid, (===_iff g.granted_role role).0 given)

empty_of : {A : Type 0} (xs : List A) → (length xs == 0) ≡ true → xs ≡ []
empty_of [] e = refl
empty_of (x ∷ xs) e = absurd (ground (arith, e))

verified_cases :
    (platform : Platform) (result : GrantChainResult) (user role : Text)
    → check_member_role platform result user role ≡ verified
    → ((grants_to user result.grants ≡ []) × (role ≡ codes "member"))
      ⊎ ((l : Latest) × (g : GrantRecord) × (scan
              (body_roster platform)
              (grants_to user result.grants)
              nothing_yet
            ≡ some (some l))
          × (l.grants ≡ g ∷ [])
          × (verdict_of g.sort_key result.verdicts ≡ some valid)
          × (g.granted_role ≡ role))
unfolding check_member_role
verified_cases platform result user role v =
    elim (Bool-cases (length (grants_to user result.grants) == 0)) [
      | inl no_grant ↦
          let member : (role === codes "member") ≡ true = ground (arith, no_grant, v) in
          inl (
            empty_of (grants_to user result.grants) no_grant,
            (===_iff role (codes "member")).0 member,
          )
      | inr granted ↦
          elim (Option-cases
            (scan (body_roster platform) (grants_to user result.grants) nothing_yet)) [
              | inl stopped ↦ absurd (ground (arith, granted, stopped, v))
              | inr (latest, ran) ↦
                  let (l, g, is_l, only, is_valid, given) =
                    judged_row platform result role latest (ground (arith, granted, ran, v)) in
                  inr (l, g, ran ∙ ap some is_l, only, is_valid, given)
            ]
    ]

abbrev chain_result : Platform → GrantChainInput → List (Text × GrantVerdict) → GrantChainResult
chain_result platform input found = record {
  anchor_valid = anchor_valid platform input;
  anchor_pinned = pin_matched platform input;
  verdicts = found;
  grants = input.grants;
}

some-inj : {A : Type 0} {x y : A} → some x ≡ some y → x ≡ y
some-inj e = cc

-- A role that `checkMemberRole` calls verified, on the result of the verifier, is that of a plain
-- member to whom the server serves no grant, or is given by a grant to the user that the rules
-- justify and that is dated after every other grant to them.
pub check_member_role_sound :
    (platform : Platform) (depth : ℕ) (input : GrantChainInput) (result : GrantChainResult)
    (user role : Text)
    → verify_grant_chain platform depth input ≡ some result
    → check_member_role platform result user role ≡ verified
    → ((grants_to user input.grants ≡ []) × (role ≡ codes "member"))
      ⊎ ((g : GrantRecord) × IsBacked platform input user role g)
unfolding verify_grant_chain
check_member_role_sound platform depth input result user role e v =
    let (found, all, same) =
      >>=-eq-some (verdicts platform input depth input.grants)
        (λ found. some (chain_result platform input found)) e in
    elim (verified_cases platform (chain_result platform input found) user role
      (subst (λ r. check_member_role platform r user role ≡ verified) (sym (some-inj same)) v)) [
        | inl none_served ↦ inl none_served
        | inr (l, g, ran, only, is_valid, given) ↦ inr (
          g,
          roster-IsBacked platform input user role l g ran only given
              (λ m. valid_row platform input depth found g all m is_valid),
        )
      ]

-- A row with a valid verdict in the verifier's result is justified.
pub chain_row-Justified :
    (platform : Platform) (depth : ℕ) (input : GrantChainInput) (result : GrantChainResult)
    (g : GrantRecord)
    → verify_grant_chain platform depth input ≡ some result
    → In g result.grants
    → verdict_of g.sort_key result.verdicts ≡ some valid
    → Justified platform input g
unfolding verify_grant_chain
chain_row-Justified platform depth input result g e m v =
    let (found, all, same) =
      >>=-eq-some (verdicts platform input depth input.grants)
        (λ found. some (chain_result platform input found)) e in
    let is_result = some-inj same in
    let (n, verified_row) =
      valid_row platform input depth found g all (subst (λ r. In g r.grants) (sym is_result) m)
        (subst (λ r. verdict_of g.sort_key r.verdicts ≡ some valid) (sym is_result) v) in
    verify_one_sound platform input n g verified_row
