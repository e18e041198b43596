-- ===== src/Tests/History.antt =====
-- The history of a user who rotated once.
use undergroundbb.History.Served.{build_own_key_history-IsServed}
use undergroundbb.Wire.Decimal.{decimal}
use undergroundbb.Wire.Encoding.{
  uint32_be, append_length_prefixed, concat_onto, length_prefixed_concat, base64_to_bytes,
}
use undergroundbb.Wire.Compare.{bytes_equal}
use undergroundbb.Wire.Signature.{contextualize, verify}
use undergroundbb.Grant.SortKey.{after, exactly, day_prefix}
use undergroundbb.History.Roster.{
  insert, sort, roster_entry_id, roster_digest, decode_entries, decode_roster, decode_sized,
}
use undergroundbb.History.Covered.{signing_keys_on-covers}
use undergroundbb.History.Query.{
  last_link, ends_at_wrapping, admitted_link, chain_carries_keys, listed, since, signer_link,
  any_link, own_signer_accepted, signing_keys_on,
}
use undergroundbb.History.Signer.{
  own_signer_accepted_sound, chain_carries_keys_sound, IsListed, IsCarried,
}
use undergroundbb.History.Chain.{IsServed, IsChain}
use undergroundbb.History.Build.{
  is_day, decode_change, change_payload, ends_at, follows, insert_change, sort_changes,
  check_change, build_link, build_links, build_own_key_history,
}
use undergroundbb.Base.{
  any, ◌===◌, ◌<<◌, find, In, ◌≡◌, refl, [], ◌∷◌, ◌++◌, none, some, codes, ◌⊎◌, true, List, Text,
  Bytes,
}
use undergroundbb.Tests.Toy.{toy, alice, alice_key, bob_key}
use undergroundbb.History.Records.{WireKeyChange, WireKeyChangeRoster, OwnKeyHistory, OwnKeyLink}
use undergroundbb.History.Sound.{build_own_key_history-IsChain}

abbrev pin_signature : Bytes
pin_signature = alice_key ++ alice_key

abbrev pin_row : Text
pin_row = codes "PIN#" ++ alice

abbrev entry_id : Bytes
entry_id = codes "PIN#aaaaaaaa-aaa"

abbrev one_entry_digest : Bytes
one_entry_digest =
    0 ∷ 0 ∷ 0 ∷ 1 ∷ 49 ∷ 0 ∷ 0 ∷ 0 ∷ 16 ∷ (entry_id ++ (0 ∷ 0 ∷ 0 ∷ 0 ∷ 0 ∷ 0 ∷ 0 ∷ []))

abbrev pub change : WireKeyChange
change = record {
  key_epoch = 1;
  day = codes "2024-03-01";
  old_signing_public_key = alice_key;
  old_wrapping_public_key = codes "old-wrapping-key-of--32-bytes-00";
  new_signing_public_key = bob_key;
  new_wrapping_public_key = codes "new-wrapping-key-of--32-bytes-00";
  roster_digest = one_entry_digest;
  old_signature = alice_key ++ alice_key;
  new_signature = bob_key ++ bob_key;
}

abbrev link : OwnKeyLink
link = record {
  epoch = 1;
  day = codes "2024-03-01";
  old_signing = alice_key;
  new_signing = bob_key;
  old_wrapping = codes "old-wrapping-key-of--32-bytes-00";
  new_wrapping = codes "new-wrapping-key-of--32-bytes-00";
  roster = some (entry_id ∷ []);
}

abbrev history : OwnKeyHistory
history = record { current = bob_key; links = link ∷ [] }

abbrev rosters : List WireKeyChangeRoster
rosters = record { key_epoch = 1; roster = entry_id ∷ [] } ∷ []

builds : build_own_key_history toy alice bob_key (change ∷ []) rosters ≡ some history
unfolding toy build_own_key_history build_links build_link check_change sort_changes insert_change
    follows ends_at change_payload decode_change decode_sized decode_roster decode_entries
    roster_digest roster_entry_id sort insert is_day day_prefix exactly after find verify
    contextualize bytes_equal base64_to_bytes ◌<<◌ ◌===◌ decimal own_signer_accepted any_link
    signer_link since listed any chain_carries_keys admitted_link ends_at_wrapping last_link
    length_prefixed_concat concat_onto append_length_prefixed uint32_be
builds = refl

accepted :
    own_signer_accepted toy history alice_key (codes "2024-02-01") pin_row pin_signature ≡ true
unfolding toy build_own_key_history build_links build_link check_change sort_changes insert_change
    follows ends_at change_payload decode_change decode_sized decode_roster decode_entries
    roster_digest roster_entry_id sort insert is_day day_prefix exactly after find verify
    contextualize bytes_equal base64_to_bytes ◌<<◌ ◌===◌ decimal own_signer_accepted any_link
    signer_link since listed any chain_carries_keys admitted_link ends_at_wrapping last_link
    length_prefixed_concat concat_onto append_length_prefixed uint32_be
accepted = refl

carries :
    chain_carries_keys toy history alice_key link.old_wrapping
      (codes "2024-02-01")
      link.new_wrapping
    ≡ true
unfolding toy build_own_key_history build_links build_link check_change sort_changes insert_change
    follows ends_at change_payload decode_change decode_sized decode_roster decode_entries
    roster_digest roster_entry_id sort insert is_day day_prefix exactly after find verify
    contextualize bytes_equal base64_to_bytes ◌<<◌ ◌===◌ decimal own_signer_accepted any_link
    signer_link since listed any chain_carries_keys admitted_link ends_at_wrapping last_link
    length_prefixed_concat concat_onto append_length_prefixed uint32_be
carries = refl

build_own_key_history-IsChain_example :
    (bob_key ≡ bob_key) × IsChain toy alice bob_key 0 none (link ∷ [])
build_own_key_history-IsChain_example =
    build_own_key_history-IsChain toy alice bob_key (change ∷ []) rosters history builds

build_own_key_history-IsServed_example : IsServed toy alice (change ∷ []) (link ∷ [])
build_own_key_history-IsServed_example =
    build_own_key_history-IsServed toy alice bob_key (change ∷ []) rosters history builds

own_signer_accepted_sound_example :
    (alice_key ≡ bob_key)
    ⊎ IsListed toy alice history alice_key (codes "2024-02-01") pin_row pin_signature
own_signer_accepted_sound_example =
    own_signer_accepted_sound toy alice bob_key (change ∷ []) rosters history alice_key
      (codes "2024-02-01") pin_row pin_signature builds accepted

chain_carries_keys_sound_example :
    IsCarried toy alice history alice_key link.old_wrapping (codes "2024-02-01") link.new_wrapping
chain_carries_keys_sound_example =
    chain_carries_keys_sound toy alice bob_key (change ∷ []) rosters history alice_key
      link.old_wrapping (codes "2024-02-01") link.new_wrapping builds carries

signing_keys_on-covers_example :
    (k : Bytes) × In k (signing_keys_on history bob_key (codes "2024-03-01"))
signing_keys_on-covers_example = signing_keys_on-covers history bob_key (codes "2024-03-01")
