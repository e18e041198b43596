-- ===== src/History/Build.antt =====
-- `buildOwnKeyHistory` of own-history.ts.
use undergroundbb.Base.{
  ℕ, suc, ◌-◌, Bool, true, not, ◌&&◌, List, [], ◌∷◌, Option, none, some, Text, Bytes, codes, ltb,
  ◌==◌, ◌<<◌, find, if◌then◌else◌, ◌>>=◌, ◌++◌, is_some,
}
use undergroundbb.Platform.{Platform}
use undergroundbb.Wire.Compare.{bytes_equal}
use undergroundbb.Wire.Signature.{SigningContext, verify}
use undergroundbb.Payloads.{key_rotation_payload}
use undergroundbb.Grant.SortKey.{day_prefix, at_end}
use undergroundbb.History.Records.{WireKeyChange, WireKeyChangeRoster, OwnKeyLink, OwnKeyHistory}
use undergroundbb.History.Roster.{key_size, signature_size, decode_sized, decode_roster}

-- `[...input.changes].sort((a, b) => a.keyEpoch - b.keyEpoch)`
unfoldable pub insert_change : WireKeyChange → List WireKeyChange → List WireKeyChange
insert_change c [] = c ∷ []
insert_change c (d ∷ ds) =
    let rest = insert_change c ds in if ltb d.key_epoch c.key_epoch then d ∷ rest else c ∷ d ∷ ds

unfoldable pub sort_changes : List WireKeyChange → List WireKeyChange
unfolding insert_change
sort_changes [] = []
sort_changes (c ∷ cs) = insert_change c (sort_changes cs)

-- The keys, the digest and the signatures of a change, decoded.
pub record DecodedChange : Type 0 where
  pub old_signing : Bytes
  pub old_wrapping : Bytes
  pub new_signing : Bytes
  pub new_wrapping : Bytes
  pub digest : Bytes
  pub old_sig : Bytes
  pub new_sig : Bytes

-- `listed?.roster`
abbrev pub roster_of : Option WireKeyChangeRoster → Option (List Text)
roster_of none = none
roster_of (some r) = some r.roster

-- The checks of a link against the one before it.
unfoldable pub follows : Option OwnKeyLink → DecodedChange → Text → Bool
follows none k day = true
follows (some previous) k day =
    bytes_equal previous.new_signing k.old_signing
    && (bytes_equal previous.new_wrapping k.old_wrapping && not (day << previous.day))

-- Whether the chain ends at the caller's key.
unfoldable pub ends_at : Option OwnKeyLink → Bytes → Bool
ends_at none own = true
ends_at (some previous) own = bytes_equal previous.new_signing own

module _ (platform : Platform) where
  open platform use {date_parse}

  unfoldable pub is_day : Text → Bool
  is_day s =
      is_some (day_prefix s >>= λ d. at_end d.1) && is_some (date_parse (s ++ codes "T00:00:00Z"))

  unfoldable pub decode_change : WireKeyChange → Option DecodedChange
  decode_change c = do
    old_signing ← decode_sized platform key_size c.old_signing_public_key
    old_wrapping ← decode_sized platform key_size c.old_wrapping_public_key
    new_signing ← decode_sized platform key_size c.new_signing_public_key
    new_wrapping ← decode_sized platform key_size c.new_wrapping_public_key
    digest ← decode_sized platform 32 c.roster_digest
    old_sig ← decode_sized platform signature_size c.old_signature
    new_sig ← decode_sized platform signature_size c.new_signature
    some (record {
      old_signing = old_signing;
      old_wrapping = old_wrapping;
      new_signing = new_signing;
      new_wrapping = new_wrapping;
      digest = digest;
      old_sig = old_sig;
      new_sig = new_sig;
    })

  -- The payload carries the epoch before the rotation.
  unfoldable pub change_payload : Text → DecodedChange → Text → ℕ → Bytes
  change_payload user k day epoch =
      key_rotation_payload platform user k.old_signing k.old_wrapping k.new_signing k.new_wrapping
        day (epoch - 1) k.digest

  module _ (user : Text) (rosters : List WireKeyChangeRoster) where
    abbrev pub link_of : WireKeyChange → DecodedChange → OwnKeyLink
    link_of c k = record {
      epoch = c.key_epoch;
      day = c.day;
      old_signing = k.old_signing;
      new_signing = k.new_signing;
      old_wrapping = k.old_wrapping;
      new_wrapping = k.new_wrapping;
      roster =
          decode_roster platform (roster_of (find (λ r. r.key_epoch == c.key_epoch) rosters))
            k.digest;
    }

    -- The body of the loop behind the decoding.
    unfoldable pub check_change :
        Option OwnKeyLink → WireKeyChange → DecodedChange → Option OwnKeyLink
    check_change previous c k =
        let payload = change_payload user k c.day c.key_epoch in
        if not (verify platform k.old_signing SigningContext.key_rotation payload k.old_sig)
        then none
        else if not (verify platform k.new_signing SigningContext.key_rotation payload k.new_sig)
        then none
        else if not (follows previous k c.day)
        then none
        else some (link_of c k)

    unfoldable pub build_link : ℕ → Option OwnKeyLink → WireKeyChange → Option OwnKeyLink
    build_link i previous c =
        let checked = decode_change c >>= check_change previous c in
        if not (c.key_epoch == suc i) then none else if not (is_day c.day) then none else checked

    -- The loop, from the change of index `i` on, and the check behind it.
    unfoldable pub build_links :
        Bytes → ℕ → Option OwnKeyLink → List WireKeyChange → Option (List OwnKeyLink)
    build_links own i previous [] = if ends_at previous own then some [] else none
    build_links own i previous (c ∷ cs) = do
      link ← build_link i previous c
      rest ← build_links own (suc i) (some link) cs
      some (link ∷ rest)

  unfoldable pub build_own_key_history :
      Text → Bytes → List WireKeyChange → List WireKeyChangeRoster → Option OwnKeyHistory
  build_own_key_history user own_signing_key changes rosters =
      build_links user rosters own_signing_key 0 none (sort_changes changes) >>= λ links.
      some (record { current = own_signing_key; links = links })
