-- ===== src/History/Sound.antt =====
-- `buildOwnKeyHistory` builds only verified chains, and what an accepted signer rests on.
use undergroundbb.Base.{
  ==_iff, find, ◌>>=◌, ◌==◌, if◌then◌else◌, if-eq-some, guard-eq-some, ℕ, suc, ◌≡◌, refl, sym,
  subst, ap, ◌∙◌, true, false, List, [], ◌∷◌, Option, none, some, arith, Text, Bytes, >>=-eq-some,
  ◌<<◌,
}
use undergroundbb.Platform.{Platform}
use undergroundbb.Wire.Compare.{bytes_equal, bytes_equal_iff}
use undergroundbb.Wire.Signature.{verify, SigningContext}
use undergroundbb.History.Records.{WireKeyChange, WireKeyChangeRoster, OwnKeyLink, OwnKeyHistory}
use undergroundbb.History.Roster.{
  signature_size, key_size, decode_sized, decode_entries, decode_roster, roster_digest,
}
use undergroundbb.History.Build.{
  decode_change, is_day, roster_of, sort_changes, change_payload, follows, ends_at, check_change,
  build_link, build_links, build_own_key_history, link_of, DecodedChange,
}
use undergroundbb.History.Chain.{
  IsLinkOf, IsSignedLink, Follows, starts, follows_on, IsChain, never, ended, linked,
}

decode_roster-digest :
    (platform : Platform) (roster : Option (List Text)) (digest : Bytes) (entries : List Bytes)
    → decode_roster platform roster digest ≡ some entries
    → roster_digest platform entries ≡ digest
unfolding decode_roster
decode_roster-digest platform none digest entries e = cc
decode_roster-digest platform (some roster) digest entries e =
    let (es, read, checked) =
      >>=-eq-some (decode_entries platform roster)
        (λ es. if bytes_equal (roster_digest platform es) digest then some es else none) e in
    let (same, is_entries) = if-eq-some (bytes_equal (roster_digest platform es) digest) checked in
    ap (roster_digest platform) (sym is_entries)
    ∙ (bytes_equal_iff (roster_digest platform es) digest).0 same

module _ (platform : Platform) (user : Text) (rosters : List WireKeyChangeRoster) where
  follows-Follows :
      (previous : Option OwnKeyLink) (c : WireKeyChange) (k : DecodedChange)
      → follows previous k c.day ≡ true
      → Follows platform user previous (link_of platform user rosters c k)
  unfolding follows
  follows-Follows none c k e = starts
  follows-Follows (some previous) c k e =
      let facts : (bytes_equal previous.new_signing k.old_signing ≡ true)
          × (bytes_equal previous.new_wrapping k.old_wrapping ≡ true)
          × ((c.day << previous.day) ≡ false) =
        ground (arith, e) in
      follows_on ((bytes_equal_iff _ _).0 facts.0) ((bytes_equal_iff _ _).0 facts.1) facts.2

  ends_at-IsChain :
      (own : Bytes) (i : ℕ) (previous : Option OwnKeyLink)
      → ends_at previous own ≡ true
      → IsChain platform user own i previous []
  unfolding ends_at
  ends_at-IsChain own i none e = never
  ends_at-IsChain own i (some last) e = ended ((bytes_equal_iff _ _).0 e)

  -- What a change says is what its link says.
  decoded_link :
      (c : WireKeyChange) (k : DecodedChange)
      → decode_change platform c ≡ some k
      → (signed : IsSignedLink platform user (link_of platform user rosters c k))
      → signed.digest ≡ k.digest
      → signed.old_sig ≡ k.old_sig
      → signed.new_sig ≡ k.new_sig
      → IsLinkOf platform user c (link_of platform user rosters c k)
  unfolding decode_change
  decoded_link c k decoded signed digest old_sig new_sig =
      let (a, old_signing, e1) =
        >>=-eq-some (decode_sized platform key_size c.old_signing_public_key) _ decoded in
      let (b, old_wrapping, e2) =
        >>=-eq-some (decode_sized platform key_size c.old_wrapping_public_key) _ e1 in
      let (p, new_signing, e3) =
        >>=-eq-some (decode_sized platform key_size c.new_signing_public_key) _ e2 in
      let (q, new_wrapping, e4) =
        >>=-eq-some (decode_sized platform key_size c.new_wrapping_public_key) _ e3 in
      let (d, has_digest, e5) = >>=-eq-some (decode_sized platform 32 c.roster_digest) _ e4 in
      let (s, has_old, e6) =
        >>=-eq-some (decode_sized platform signature_size c.old_signature) _ e5 in
      let (t, has_new, e7) =
        >>=-eq-some (decode_sized platform signature_size c.new_signature) _ e6 in
      let same : record {
        old_signing = a;
        old_wrapping = b;
        new_signing = p;
        new_wrapping = q;
        digest = d;
        old_sig = s;
        new_sig = t;
      }
          ≡ k =
        cc e7 in
      record {
        epoch = refl;
        day = refl;
        old_signing = old_signing ∙ ap (λ x. some x.old_signing) same;
        old_wrapping = old_wrapping ∙ ap (λ x. some x.old_wrapping) same;
        new_signing = new_signing ∙ ap (λ x. some x.new_signing) same;
        new_wrapping = new_wrapping ∙ ap (λ x. some x.new_wrapping) same;
        signed = signed;
        digest = has_digest ∙ ap (λ x. some x.digest) same ∙ ap some (sym digest);
        old_sig = has_old ∙ ap (λ x. some x.old_sig) same ∙ ap some (sym old_sig);
        new_sig = has_new ∙ ap (λ x. some x.new_sig) same ∙ ap some (sym new_sig);
      }

  -- A change that passes gives its link.
  check_change_sound :
      (previous : Option OwnKeyLink) (c : WireKeyChange) (k : DecodedChange) (link : OwnKeyLink)
      → decode_change platform c ≡ some k
      → check_change platform user rosters previous c k ≡ some link
      → (link_of platform user rosters c k ≡ link)
        × IsLinkOf platform user c (link_of platform user rosters c k)
        × Follows platform user previous (link_of platform user rosters c k)
  unfolding check_change change_payload
  check_change_sound previous c k link decoded e =
      let (by_old, more) =
        guard-eq-some
          (verify platform k.old_signing SigningContext.key_rotation
            (change_payload platform user k c.day c.key_epoch) k.old_sig)
          _ e in
      let (by_new, last) =
        guard-eq-some
          (verify platform k.new_signing SigningContext.key_rotation
            (change_payload platform user k c.day c.key_epoch) k.new_sig)
          _ more in
      let (in_line, is_link) = guard-eq-some (follows previous k c.day) _ last in
      (
        cc is_link,
        decoded_link c k decoded
            (record {
              digest = k.digest;
              old_sig = k.old_sig;
              new_sig = k.new_sig;
              payload = change_payload platform user k c.day c.key_epoch;
              covers = refl;
              by_old = by_old;
              by_new = by_new;
              listed = λ entries.
                  decode_roster-digest platform
                    (roster_of (find (λ r. r.key_epoch == c.key_epoch) rosters)) k.digest entries;
            })
            refl refl refl,
        follows-Follows previous c k in_line,
      )

  pub build_link_sound :
      (i : ℕ) (previous : Option OwnKeyLink) (c : WireKeyChange) (link : OwnKeyLink)
      → build_link platform user rosters i previous c ≡ some link
      → (link.epoch ≡ suc i) × IsLinkOf platform user c link × Follows platform user previous link
  unfolding build_link
  build_link_sound i previous c link e =
      let (at, more) = guard-eq-some (c.key_epoch == suc i) _ e in
      let (dated, last) = guard-eq-some (is_day platform c.day) _ more in
      let (k, decoded, checked) =
        >>=-eq-some (decode_change platform c) (check_change platform user rosters previous c)
          last in
      let (is_link, of_change, in_line) = check_change_sound previous c k link decoded checked in
      (
        ap (λ l. l.epoch) (sym is_link) ∙ (==_iff c.key_epoch (suc i)).0 at,
        subst (IsLinkOf platform user c) is_link of_change,
        subst (Follows platform user previous) is_link in_line,
      )

  build_links-IsChain :
      (own : Bytes) (i : ℕ) (previous : Option OwnKeyLink) (cs : List WireKeyChange)
      (links : List OwnKeyLink)
      → build_links platform user rosters own i previous cs ≡ some links
      → IsChain platform user own i previous links
  unfolding build_links
  build_links-IsChain own i previous [] links e =
      let (at_end, is_links) = if-eq-some (ends_at previous own) e in
      subst (IsChain platform user own i previous) is_links (ends_at-IsChain own i previous at_end)
  build_links-IsChain own i previous (c ∷ cs) links e =
      let (link, built, more) =
        >>=-eq-some (build_link platform user rosters i previous c)
          (λ link. build_links platform user rosters own (suc i) (some link) cs >>= λ rest.
            some (link ∷ rest))
          e in
      let (rest, others, is_links) =
        >>=-eq-some (build_links platform user rosters own (suc i) (some link) cs)
          (λ rest. some (link ∷ rest)) more in
      let (at, of_change, in_line) = build_link_sound i previous c link built in
      let same : link ∷ rest ≡ links = cc is_links in
      subst (IsChain platform user own i previous) same (
        linked at of_change.signed in_line
          (build_links-IsChain own (suc i) (some link) cs rest others))

-- A history that is built ends at the caller's own key, and its links are a verified chain: numbered
-- from one without a gap, each signed by both of its keys over its day, its roster's digest and the
-- epoch before it, each starting at the keys and not before the day of the one before it.
pub build_own_key_history-IsChain :
    (platform : Platform) (user : Text) (own : Bytes) (changes : List WireKeyChange)
    (rosters : List WireKeyChangeRoster) (history : OwnKeyHistory)
    → build_own_key_history platform user own changes rosters ≡ some history
    → (history.current ≡ own) × IsChain platform user own 0 none history.links
unfolding build_own_key_history
build_own_key_history-IsChain platform user own changes rosters history e =
    let (links, built, is_history) =
      >>=-eq-some (build_links platform user rosters own 0 none (sort_changes changes))
        (λ links. some (record { current = own; links = links })) e in
    let same : record { current = own; links = links } ≡ history = cc is_history in
    (
      ap (λ h. h.current) (sym same),
      subst (λ h. IsChain platform user own 0 none h.links) same
          (build_links-IsChain platform user rosters own 0 none (sort_changes changes) links built),
    )
