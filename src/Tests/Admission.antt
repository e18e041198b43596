-- ===== src/Tests/Admission.antt =====
-- Alice admits Dave to the group of the role chain's story.
use undergroundbb.Wire.Signature.{contextualize, verify}
use undergroundbb.Grant.Keys.{keys_on_day, signed_on_day}
use undergroundbb.Grant.Scan.{grants_to}
use undergroundbb.Wire.Compare.{bytes_equal}
use undergroundbb.Grant.SortKey.{
  tagged_key, random_suffix, parse_sort_key, after, exactly, day_prefix,
}
use undergroundbb.Wire.Encoding.{decode, base64_to_bytes}
use undergroundbb.History.Roster.{decode_sized}
use undergroundbb.Grant.Verify.{verdict_of, verify_grant_chain}
use undergroundbb.Admission.Sound.{verify_admission_sound, IsAdmitted}
use undergroundbb.Base.{
  keep, find, ◌===◌, any, ◌≡◌, refl, [], ◌∷◌, ◌++◌, none, some, codes, Text, Bytes,
}
use undergroundbb.Tests.Toy.{toy, story, alice, alice_key, bob_key, root_grant, history}
use undergroundbb.Tests.Chain.{story_result, story_runs}
use undergroundbb.Admission.Verify.{
  ok, admission_signature, undisturbed, found_valid, carried_to, judge_inviter, judge_found,
  judge_admission, day_start, decode_admission, verify_admission, AdmissionRecord,
  VerifyAdmissionInput,
}

abbrev dave : Text
dave = codes "dddddddd-dddd-dddd-dddd-dddddddddddd"

abbrev dave_key : Bytes
dave_key = codes "dave--key-of-exactly-32-bytes-dd"

abbrev dave_wrapping : Bytes
dave_wrapping = codes "dave-wrapping-of-32-bytes-dddddd"

abbrev admission : AdmissionRecord
admission = record {
  invitee_user_id = dave;
  inviter_user_id = alice;
  invite_id = codes "invite";
  invitee_ed25519_public_key = dave_key;
  invitee_x25519_public_key = dave_wrapping;
  inviter_grant_ref = root_grant.sort_key;
  day = codes "2024-03-01";
  generation = 3;
  signature = alice_key ++ alice_key;
}

unfoldable asked : VerifyAdmissionInput
asked = record {
  group_id = codes "group";
  admission_record = admission;
  invitee_signing_keys = bob_key ∷ dave_key ∷ [];
  invitee_wrapping_key = dave_wrapping;
  chain = story_result;
  inviter_history = some (history alice_key);
  invitee_history = none;
}

admits : verify_admission toy asked ≡ ok
unfolding toy asked verify_admission decode_admission decode_sized base64_to_bytes day_start
    day_prefix exactly after judge_admission judge_found judge_inviter any bytes_equal ◌===◌
    carried_to find grants_to keep story_result story found_valid verdict_of parse_sort_key
    random_suffix tagged_key undisturbed admission_signature signed_on_day keys_on_day decode verify
    contextualize
admits = refl

chain_is_result : verify_grant_chain toy 4 story ≡ some asked.chain
unfolding asked
chain_is_result = story_runs

verify_admission_sound_example : IsAdmitted toy asked story
verify_admission_sound_example = verify_admission_sound toy asked story 4 chain_is_result admits
