-- ===== src/History/Query.antt =====
-- What own-history.ts reads off a built history.
use undergroundbb.Base.{
  ℕ, Bool, true, false, not, ◌&&◌, ◌||◌, List, [], ◌∷◌, ◌++◌, Option, none, some, Text, Bytes, ◌==◌,
  ◌<<◌, any, every, map, length, if◌then◌else◌,
}
use undergroundbb.Platform.{Platform}
use undergroundbb.Wire.Compare.{bytes_equal}
use undergroundbb.Grant.Records.{SupersededKey}
use undergroundbb.History.Records.{OwnKeyLink, OwnKeyHistory}
use undergroundbb.History.Roster.{key_size, roster_entry_id, decode_sized}
use undergroundbb.History.Build.{is_day}

-- `links[links.length - 1]`
unfoldable pub last_link : List OwnKeyLink → Option OwnKeyLink
last_link [] = none
last_link (l ∷ []) = some l
last_link (l ∷ m ∷ ls) = last_link (m ∷ ls)

-- `introduced === undefined || day >= introduced`
unfoldable pub since : Option Text → Text → Bool
since none day = true
since (some introduced) day = not (day << introduced)

-- `links.some((link, i) => …)`, where the test is given the day of the link before.
unfoldable pub any_link : (Option Text → OwnKeyLink → Bool) → Option Text → List OwnKeyLink → Bool
any_link p introduced [] = false
any_link p introduced (l ∷ ls) = p introduced l || any_link p (some l.day) ls

-- `roster?.some((e) => sameBytes(e, id)) === true`
unfoldable pub listed : Option (List Bytes) → Bytes → Bool
listed none id = false
listed (some entries) id = any (λ e. bytes_equal e id) entries

unfoldable pub signer_link : Bytes → Text → Bytes → Option Text → OwnKeyLink → Bool
unfolding since listed
signer_link signer signed_day id introduced link =
    if not (bytes_equal link.old_signing signer)
    then false
    else if link.day << signed_day
    then false
    else if not (since introduced signed_day)
    then false
    else listed link.roster id

unfoldable pub admitted_link : Bytes → Bytes → Text → Option Text → OwnKeyLink → Bool
unfolding since
admitted_link signing wrapping day introduced link =
    if not (bytes_equal link.old_signing signing)
    then false
    else if not (bytes_equal link.old_wrapping wrapping)
    then false
    else if link.day << day
    then false
    else since introduced day

-- `keysCarriedFrom`: from the first link whose old key is the admitted one on.
unfoldable pub carried : Bytes → List OwnKeyLink → List Bytes
carried signing [] = []
carried signing (l ∷ ls) =
    let rest = carried signing ls in
    if bytes_equal l.old_signing signing then map (λ k. k.new_signing) (l ∷ ls) else rest

unfoldable pub keys_carried_from : OwnKeyHistory → Bytes → List Bytes
unfolding carried
keys_carried_from history signing = carried signing history.links

-- `signingKeysOn`: the superseded keys that may have signed on the day.
unfoldable pub superseded_on : Text → Option Text → List OwnKeyLink → List Bytes
unfolding since
superseded_on day introduced [] = []
superseded_on day introduced (l ∷ ls) =
    let rest = superseded_on day (some l.day) ls in
    if not (l.day << day) && since introduced day then l.old_signing ∷ rest else rest

unfoldable pub current_on : Option OwnKeyLink → Bytes → Text → List Bytes
current_on none current day = current ∷ []
current_on (some l) current day = if not (day << l.day) then current ∷ [] else []

unfoldable pub signing_keys_on : OwnKeyHistory → Bytes → Text → List Bytes
unfolding superseded_on current_on last_link
signing_keys_on history current day =
    current_on (last_link history.links) current day ++ superseded_on day none history.links

unfoldable pub own_keys : OwnKeyHistory → List Bytes
own_keys history = history.current ∷ map (λ l. l.old_signing) history.links

unfoldable pub ends_at_wrapping : Option OwnKeyLink → Bytes → Bool
ends_at_wrapping none served = false
ends_at_wrapping (some last) served = bytes_equal last.new_wrapping served

module _ (platform : Platform) where
  unfoldable pub chain_carries_keys : OwnKeyHistory → Bytes → Bytes → Text → Bytes → Bool
  unfolding any_link admitted_link ends_at_wrapping last_link
  chain_carries_keys history signing wrapping day served =
      if not (is_day platform day)
      then false
      else if not (ends_at_wrapping (last_link history.links) served)
      then false
      else any_link (admitted_link signing wrapping day) none history.links

  unfoldable pub own_signer_accepted : OwnKeyHistory → Bytes → Text → Text → Bytes → Bool
  unfolding any_link signer_link
  own_signer_accepted history signer signed_day sk signature =
      if bytes_equal signer history.current
      then true
      else if not (is_day platform signed_day)
      then false
      else any_link (signer_link signer signed_day (roster_entry_id platform sk signature)) none
          history.links

  -- `key !== null && sameBytes(key, link.oldSigning)`
  unfoldable pub served_as : OwnKeyLink → SupersededKey → Bool
  served_as link k = elim (decode_sized platform key_size k.public_key) [
    | none ↦ false
    | some key ↦ bytes_equal key link.old_signing
  ]

  unfoldable pub own_history_matches_served : OwnKeyHistory → Text → List SupersededKey → ℕ → Bool
  unfolding served_as
  own_history_matches_served history signing_public_key superseded key_epoch =
      elim (decode_sized platform key_size signing_public_key) [
        | none ↦ false
        | some current ↦
            if not (bytes_equal current history.current)
            then false
            else if not (key_epoch == length history.links)
            then false
            else if not (length superseded == length history.links)
            then false
            else every (λ link. any (served_as link) superseded) history.links
      ]
