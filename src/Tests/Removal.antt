-- ===== src/Tests/Removal.antt =====
-- Alice removes Bob, Carol re-keys herself, and Alice removes Bob again.
use undergroundbb.Base.{
  ◌↔◌, if◌then◌else◌, ℕ, ◌≡◌, refl, [], ◌∷◌, none, some, codes, any, ◌===◌, arith,
}
use undergroundbb.Wire.Decimal.{decimal}
use undergroundbb.Wire.Encoding.{
  uint32_be, append_length_prefixed, concat_onto, length_prefixed_concat, base64_to_bytes,
}
use undergroundbb.Wire.Signature.{contextualize, verify}
use undergroundbb.Grant.Records.{natural, safe_natural}
use undergroundbb.Payloads.{rotation_start_payload, rotation_rekey_payload}
use undergroundbb.Removal.Verify.{
  RemovalLink, VerifyRemovalsInput, RemovedAt, add_name, removers_onto, removers_of, link_at,
  removed_at, set_removed, index_links, rekey_kind_ok, signed_by, rekey_signed, verify_rekey_link,
  removal_signed, record_removal, check_removal, check_link, check_generation, check_from,
  verify_removals,
}
use undergroundbb.Removal.Sound.{
  IsCovered, verify_removals_complete, verify_removals_newest, IsNewestRemoval,
}
use undergroundbb.Tests.Toy.{toy, histories, alice, bob, carol, alice_key, carol_key}

program : Unit {0}
unfolding toy histories add_name removers_onto removers_of link_at removed_at set_removed
    index_links rekey_kind_ok signed_by rekey_signed verify_rekey_link removal_signed record_removal
    check_removal check_link check_generation check_from verify_removals any verify contextualize
    base64_to_bytes ◌===◌ decimal length_prefixed_concat concat_onto append_length_prefixed
    uint32_be safe_natural rotation_start_payload rotation_rekey_payload
program = tt

abbrev removal : ℕ → RemovalLink
removal n = record {
  generation = natural n;
  remover_user_id = some alice;
  removed_user_id = some bob;
  start_signature = some alice_key;
  rekeyed_user_id = none;
  rekey_reason = none;
}

abbrev rekey : RemovalLink
rekey = record {
  generation = natural 1;
  remover_user_id = some carol;
  removed_user_id = none;
  start_signature = some carol_key;
  rekeyed_user_id = some carol;
  rekey_reason = some (codes "self");
}

abbrev input : VerifyRemovalsInput
input = record {
  group_id = codes "group";
  current_generation = natural 3;
  links = removal 2 ∷ rekey ∷ removal 0 ∷ [];
  keys_for = λ user. if user === alice then some (alice_key ∷ []) else some (carol_key ∷ []);
}

abbrev removed : RemovedAt
removed = (bob, 3) ∷ []

input_passes : verify_removals toy input ≡ some removed
unfolding program
input_passes = refl

-- Without the newest link the history fails.
withheld_fails : verify_removals toy (record input { links = rekey ∷ removal 0 ∷ [] }) ≡ none
unfolding program
withheld_fails = refl

removers : removers_of input.links ≡ alice ∷ carol ∷ []
unfolding program
removers = refl

three : safe_natural input.current_generation ≡ some 3
unfolding program
three = refl

verify_removals_complete_example : IsCovered toy input 1
verify_removals_complete_example =
    verify_removals_complete toy input removed 3 1 input_passes three (omega arith)

verify_removals_newest_example : (removed_at bob removed ≡ some 3) ↔ IsNewestRemoval input 3 bob 3
verify_removals_newest_example = verify_removals_newest toy input removed 3 bob 3 input_passes three
