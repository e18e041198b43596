-- ===== src/History/Signer.antt =====
-- Why a row that the caller signed under an earlier key counts: `ownSignerAccepted`, and why an old
-- admission does: `chainCarriesKeys`.
use undergroundbb.Base.{
  if◌then◌else◌, ℕ, ◌≡◌, refl, subst, ◌∙◌, ◌⊎◌, inl, inr, Bool, true, false, not, List, [], ◌∷◌,
  Option, none, some, arith, Text, Bytes, Bool-cases, In, ◌<<◌, any-In,
}
use undergroundbb.Platform.{Platform}
use undergroundbb.Wire.Compare.{bytes_equal, bytes_equal_iff}
use undergroundbb.History.Records.{WireKeyChange, WireKeyChangeRoster, OwnKeyLink, OwnKeyHistory}
use undergroundbb.History.Roster.{roster_entry_id}
use undergroundbb.History.Build.{is_day, build_own_key_history}
use undergroundbb.History.Query.{
  admitted_link, last_link, ends_at_wrapping, chain_carries_keys, own_signer_accepted, any_link,
  signer_link, since, listed,
}
use undergroundbb.History.Chain.{IsSignedLink, IsChain, linked, never, ended, Stands, here, there}
use undergroundbb.History.Sound.{build_own_key_history-IsChain}

-- Inversion of a refusal that did not happen.
refuse-eq_true : (b : Bool) {c : Bool} → (if b then false else c) ≡ true → (b ≡ false) × (c ≡ true)
refuse-eq_true true e = cc
refuse-eq_true false e = (refl, e)

accept-eq_true :
    (b : Bool) {c : Bool} → (if not b then false else c) ≡ true → (b ≡ true) × (c ≡ true)
accept-eq_true true e = (refl, e)
accept-eq_true false e = cc

any_link-Stands :
    (p : Option Text → OwnKeyLink → Bool) (before : Option Text) (links : List OwnKeyLink)
    → any_link p before links ≡ true
    → (introduced : Option Text) × (link : OwnKeyLink) × Stands link introduced before links
      × (p introduced link ≡ true)
unfolding any_link
any_link-Stands p before [] e = cc
any_link-Stands p before (l ∷ ls) e = elim (Bool-cases (p before l)) [
  | inl hit ↦ (before, l, here refl refl, hit)
  | inr miss ↦
      let (introduced, link, m, q) = any_link-Stands p (some l.day) ls (ground (arith, miss, e)) in
      (introduced, link, there m, q)
]

Stands-IsSignedLink :
    (platform : Platform) (user : Text) (own : Bytes) {i : ℕ} {previous : Option OwnKeyLink}
    {before introduced : Option Text} {link : OwnKeyLink} {links : List OwnKeyLink}
    → IsChain platform user own i previous links
    → Stands link introduced before links
    → IsSignedLink platform user link
Stands-IsSignedLink platform user own (linked at signed follows rest) (here b e) =
    subst (IsSignedLink platform user) e signed
Stands-IsSignedLink platform user own (linked at signed follows rest) (there m) =
    Stands-IsSignedLink platform user own rest m
Stands-IsSignedLink platform user own never m = elim m [ ]
Stands-IsSignedLink platform user own (ended e) m = elim m [ ]

-- The signer was replaced by a rotation of the caller's, signed by the signer and by the key that
-- replaced it; the day is not outside the interval in which the signer was current; and the row's id
-- is in the roster whose digest both keys signed.
pub record IsListed (platform : Platform) (user : Text) (history : OwnKeyHistory) (signer : Bytes)
    (day sk : Text) (signature : Bytes) : Type 0 where
  pub introduced : Option Text
  pub link : OwnKeyLink
  pub stands : Stands link introduced none history.links
  pub signed : IsSignedLink platform user link
  pub is_old_key : link.old_signing ≡ signer
  pub not_after : (link.day << day) ≡ false
  pub not_before : since introduced day ≡ true
  pub entries : List Bytes
  pub roster : link.roster ≡ some entries
  pub entry : In (roster_entry_id platform sk signature) entries

listed-In :
    (roster : Option (List Bytes)) (id : Bytes)
    → listed roster id ≡ true
    → (entries : List Bytes) × (roster ≡ some entries) × In id entries
unfolding listed
listed-In none id e = cc
listed-In (some entries) id e =
    let (x, m, same) = any-In (λ b. bytes_equal b id) entries e in
    (entries, refl, subst (λ b. In b entries) ((bytes_equal_iff x id).0 same) m)

-- On a history that was built, a signer is accepted only if it is the caller's current key, or an
-- earlier one under whose rotation the row is listed.
pub own_signer_accepted_sound :
    (platform : Platform) (user : Text) (own : Bytes) (changes : List WireKeyChange)
    (rosters : List WireKeyChangeRoster) (history : OwnKeyHistory) (signer : Bytes) (day sk : Text)
    (signature : Bytes)
    → build_own_key_history platform user own changes rosters ≡ some history
    → own_signer_accepted platform history signer day sk signature ≡ true
    → (signer ≡ own) ⊎ IsListed platform user history signer day sk signature
unfolding own_signer_accepted signer_link
own_signer_accepted_sound platform user own changes rosters history signer day sk signature e a =
    let (is_own, chain) =
      build_own_key_history-IsChain platform user own changes rosters history e in
    elim (Bool-cases (bytes_equal signer history.current)) [
      | inl same ↦ inl ((bytes_equal_iff signer history.current).0 same ∙ is_own)
      | inr other ↦
          let (dated, found) = accept-eq_true (is_day platform day) (ground (arith, other, a)) in
          let (introduced, link, m, p) =
            any_link-Stands (signer_link signer day (roster_entry_id platform sk signature)) none
              history.links found in
          let (is_old, more) = accept-eq_true (bytes_equal link.old_signing signer) p in
          let (not_after, last) = refuse-eq_true (link.day << day) more in
          let (not_before, in_roster) = accept-eq_true (since introduced day) last in
          let (entries, roster, entry) =
            listed-In link.roster (roster_entry_id platform sk signature) in_roster in
          inr (record {
            introduced = introduced;
            link = link;
            stands = m;
            signed = Stands-IsSignedLink platform user own chain m;
            is_old_key = (bytes_equal_iff link.old_signing signer).0 is_old;
            not_after = not_after;
            not_before = not_before;
            entries = entries;
            roster = roster;
            entry = entry;
          })
    ]

-- What carries an admitted key pair to the served wrapping key.
pub record IsCarried (platform : Platform) (user : Text) (history : OwnKeyHistory)
    (signing wrapping : Bytes) (day : Text) (served : Bytes) : Type 0 where
  pub introduced : Option Text
  pub link : OwnKeyLink
  pub stands : Stands link introduced none history.links
  pub signed : IsSignedLink platform user link
  pub is_old_signing : link.old_signing ≡ signing
  pub is_old_wrapping : link.old_wrapping ≡ wrapping
  pub not_after : (link.day << day) ≡ false
  pub not_before : since introduced day ≡ true
  pub last : OwnKeyLink
  pub is_last : last_link history.links ≡ some last
  pub ends_at_served : last.new_wrapping ≡ served

last_served :
    (l : Option OwnKeyLink) (served : Bytes)
    → ends_at_wrapping l served ≡ true
    → (last : OwnKeyLink) × (l ≡ some last) × (last.new_wrapping ≡ served)
unfolding ends_at_wrapping
last_served none served e = cc
last_served (some last) served e = (last, refl, (bytes_equal_iff last.new_wrapping served).0 e)

-- On a history that was built, an admitted key pair is carried to the served wrapping key only by a
-- rotation that its own signing key signed, on a day on which the pair was current, in a chain whose
-- last rotation introduced the served key.
pub chain_carries_keys_sound :
    (platform : Platform) (user : Text) (own : Bytes) (changes : List WireKeyChange)
    (rosters : List WireKeyChangeRoster) (history : OwnKeyHistory) (signing wrapping : Bytes)
    (day : Text) (served : Bytes)
    → build_own_key_history platform user own changes rosters ≡ some history
    → chain_carries_keys platform history signing wrapping day served ≡ true
    → IsCarried platform user history signing wrapping day served
unfolding chain_carries_keys admitted_link
chain_carries_keys_sound platform user own changes rosters history signing wrapping day served e c =
    let (is_own, chain) =
      build_own_key_history-IsChain platform user own changes rosters history e in
    let (dated, more) = accept-eq_true (is_day platform day) c in
    let (at_served, found) =
      accept-eq_true (ends_at_wrapping (last_link history.links) served) more in
    let (last, is_last, ends) = last_served (last_link history.links) served at_served in
    let (introduced, link, m, p) =
      any_link-Stands (admitted_link signing wrapping day) none history.links found in
    let (is_signing, p2) = accept-eq_true (bytes_equal link.old_signing signing) p in
    let (is_wrapping, p3) = accept-eq_true (bytes_equal link.old_wrapping wrapping) p2 in
    let (not_after, not_before) = refuse-eq_true (link.day << day) p3 in
    record {
      introduced = introduced;
      link = link;
      stands = m;
      signed = Stands-IsSignedLink platform user own chain m;
      is_old_signing = (bytes_equal_iff link.old_signing signing).0 is_signing;
      is_old_wrapping = (bytes_equal_iff link.old_wrapping wrapping).0 is_wrapping;
      not_after = not_after;
      not_before = not_before;
      last = last;
      is_last = is_last;
      ends_at_served = ends;
    }
