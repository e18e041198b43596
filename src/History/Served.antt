-- ===== src/History/Served.antt =====
-- The links that `buildOwnKeyHistory` builds are those of the served rotations.
use undergroundbb.History.Sound.{build_link_sound}
use undergroundbb.History.Records.{OwnKeyHistory, WireKeyChangeRoster, OwnKeyLink, WireKeyChange}
use undergroundbb.Platform.{Platform}
use undergroundbb.History.Build.{
  build_link, ends_at, build_own_key_history, build_links, sort_changes, insert_change,
}
use undergroundbb.Base.{
  ◌>>=◌, ◌∙◌, none, inl, ap, sym, inr, if-eq-some, >>=-eq-some, subst, some, ltb, later, suc, first,
  arith, Option, Bool-cases, ◌≡◌, ◌∷◌, refl, Bytes, length, [], In, Text, List, ℕ,
}
use undergroundbb.History.Chain.{IsServed, IsLinkOf}

In-insert_change :
    (x c : WireKeyChange) (cs : List WireKeyChange)
    → (In x (insert_change c cs) → In x (c ∷ cs)) × (In x (c ∷ cs) → In x (insert_change c cs))
unfolding insert_change
In-insert_change x c [] = (λ m. m, λ m. m)
In-insert_change x c (d ∷ ds) =
    let (out, into) = In-insert_change x c ds in
    elim (Bool-cases (ltb d.key_epoch c.key_epoch)) [
      | inr stays ↦ rw stays (λ m. m, λ m. m)
      | inl passes ↦ rw passes (
        λ m. elim m [
          | first same ↦ later (first same)
          | later n ↦ elim (out n) [ first same ↦ first same | later k ↦ later (later k) ]
        ],
        λ m. elim m [
          | first same ↦ later (into (first same))
          | later n ↦ elim n [ first same ↦ first same | later k ↦ later (into (later k)) ]
        ],
      )
    ]

In-sort_changes :
    (x : WireKeyChange) (cs : List WireKeyChange)
    → (In x (sort_changes cs) → In x cs) × (In x cs → In x (sort_changes cs))
unfolding sort_changes
In-sort_changes x [] = (λ m. m, λ m. m)
In-sort_changes x (c ∷ cs) =
    let (out, into) = In-sort_changes x cs in
    let (here_out, here_into) = In-insert_change x c (sort_changes cs) in
    (
      λ m. elim (here_out m) [ first same ↦ first same | later n ↦ later (out n) ],
      λ m. here_into (elim m [ first same ↦ first same | later n ↦ later (into n) ]),
    )

length-insert_change :
    (c : WireKeyChange) (cs : List WireKeyChange) → length (insert_change c cs) ≡ suc (length cs)
unfolding insert_change
length-insert_change c [] = refl
length-insert_change c (d ∷ ds) = ground (arith, length-insert_change c ds)

length-sort_changes : (cs : List WireKeyChange) → length (sort_changes cs) ≡ length cs
unfolding sort_changes
length-sort_changes [] = refl
length-sort_changes (c ∷ cs) =
    omega (arith, length-insert_change c (sort_changes cs), length-sort_changes cs)

module _ (platform : Platform) (user : Text) where
  no_links : IsServed platform user [] []
  no_links = record {
    each_change = λ c m. elim m [ ];
    each_link = λ l m. elim m [ ];
    as_many = refl;
  }

  one_more :
      (c : WireKeyChange) (cs : List WireKeyChange) (link : OwnKeyLink) (links : List OwnKeyLink)
      → IsLinkOf platform user c link
      → IsServed platform user cs links
      → IsServed platform user (c ∷ cs) (link ∷ links)
  one_more c cs link links of_change rest = record {
    each_change = λ x m. elim m [
      | first same ↦
          (link, first refl, subst (λ y. IsLinkOf platform user y link) (sym same) of_change)
      | later n ↦ let (l, k, is) = rest.each_change x n in (l, later k, is)
    ];
    each_link = λ l m. elim m [
      | first same ↦ (c, first refl, subst (λ y. IsLinkOf platform user c y) (sym same) of_change)
      | later n ↦ let (x, k, is) = rest.each_link l n in (x, later k, is)
    ];
    as_many = ap suc rest.as_many;
  }

  build_links-IsServed :
      (rosters : List WireKeyChangeRoster) (own : Bytes) (i : ℕ) (previous : Option OwnKeyLink)
      (cs : List WireKeyChange) (links : List OwnKeyLink)
      → build_links platform user rosters own i previous cs ≡ some links
      → IsServed platform user cs links
  unfolding build_links
  build_links-IsServed rosters own i previous [] links e =
      let (at_end, is_links) = if-eq-some (ends_at previous own) e in
      subst (IsServed platform user []) is_links no_links
  build_links-IsServed rosters own i previous (c ∷ cs) links e =
      let (link, built, more) =
        >>=-eq-some (build_link platform user rosters i previous c)
          (λ link. build_links platform user rosters own (suc i) (some link) cs >>= λ rest.
            some (link ∷ rest))
          e in
      let (rest, others, is_links) =
        >>=-eq-some (build_links platform user rosters own (suc i) (some link) cs)
          (λ rest. some (link ∷ rest)) more in
      let (at, of_change, in_line) =
        build_link_sound platform user rosters i previous c link built in
      let same : link ∷ rest ≡ links = cc is_links in
      subst (IsServed platform user (c ∷ cs)) same (
        one_more c cs link rest of_change
          (build_links-IsServed rosters own (suc i) (some link) cs rest others))

  -- A history that is built has one link for each served rotation, with its epoch, its day, its
  -- four keys, its digest and its two signatures as they decode, and no others.
  pub build_own_key_history-IsServed :
      (own : Bytes) (changes : List WireKeyChange) (rosters : List WireKeyChangeRoster)
      (history : OwnKeyHistory)
      → build_own_key_history platform user own changes rosters ≡ some history
      → IsServed platform user changes history.links
  unfolding build_own_key_history
  build_own_key_history-IsServed own changes rosters history e =
      let (links, built, is_history) =
        >>=-eq-some (build_links platform user rosters own 0 none (sort_changes changes))
          (λ links. some (record { current = own; links = links })) e in
      let same : record { current = own; links = links } ≡ history = cc is_history in
      let served = build_links-IsServed rosters own 0 none (sort_changes changes) links built in
      subst (λ h. IsServed platform user changes h.links) same
        (record {
          each_change = λ c m. served.each_change c ((In-sort_changes c changes).1 m);
          each_link = λ l m.
              let (c, n, is) = served.each_link l m in (c, (In-sort_changes c changes).0 n, is);
          as_many = served.as_many ∙ length-sort_changes changes;
        })
