-- ===== src/Tests/Checks.antt =====
-- Alice, who rotated her keys once, writes a post under her old key, approves a member's new keys, and
-- is verified by Bob.
use undergroundbb.Base.{
  ◌≡◌, ◌⊎◌, refl, true, [], ◌∷◌, ◌++◌, none, some, Text, Bytes, List, codes, any, find, ◌===◌, ◌<<◌,
}
use undergroundbb.Wire.Decimal.{decimal}
use undergroundbb.Wire.Encoding.{
  uint32_be, append_length_prefixed, concat_onto, length_prefixed_concat, base64_to_bytes,
}
use undergroundbb.Wire.Compare.{bytes_equal}
use undergroundbb.Wire.Signature.{SigningContext, contextualize, verify}
use undergroundbb.Grant.Records.{Number, natural, fraction}
use undergroundbb.Grant.SortKey.{after, exactly, day_prefix, random_suffix, at_end}
use undergroundbb.History.Roster.{
  insert, sort, roster_digest, decode_sized, decode_roster, decode_entries,
}
use undergroundbb.History.Query.{superseded_on, current_on, last_link, since, signing_keys_on}
use undergroundbb.History.Build.{
  is_day, decode_change, change_payload, ends_at, follows, insert_change, sort_changes,
  check_change, build_link, build_links, build_own_key_history,
}
use undergroundbb.Pin.Evaluate.{is_utc_day}
use undergroundbb.Payloads.{safe_text, wrap_record_payload}
use undergroundbb.Tests.Toy.{toy, alice, bob, carol, alice_key, bob_key}
use undergroundbb.Tests.History.{change}
use undergroundbb.Checks.Items.{
  AuthorKeys, SignedItem, valid, sort_key_day, is_day_text, signed_under, decode_item, item_payload,
  judge_item, check_signed_item, check_post_signature, check_comment_signature,
}
use undergroundbb.Checks.Wraps.{
  WireWrapRecord, WrapInput, approved, decode_wrap, wrap_payload, judge_wrap, check_wrapper,
  check_named, check_wrap_record,
}
use undergroundbb.Checks.Evidence.{
  signed_rotation, same_bytes, is_next, decode_evidence, decode_all, judge_link,
  key_change_evidence,
}
use undergroundbb.Checks.Verification.{
  VerificationRecord, EvaluateVerificationInput, verified, compare_fingerprint, judge_verification,
  decode_verification, evaluate_verification,
}
use undergroundbb.Checks.ItemsSound.{
  IsAuthentic, IsSigningDay, check_post_signature_sound, check_comment_signature_sound,
}
use undergroundbb.Checks.WrapsSound.{
  IsAttested, IsEvidenceOf, check_wrap_record_sound, is_attestation,
}
use undergroundbb.Checks.WrapsThrow.{check_wrap_record_throws}
use undergroundbb.Checks.EvidenceSound.{IsSignedRotation, key_change_evidence_sound}
use undergroundbb.Checks.VerificationSound.{IsVerified, evaluate_verification_sound}

program : Unit {0}
unfolding toy build_own_key_history build_links build_link check_change sort_changes insert_change
    follows ends_at change_payload decode_change decode_sized decode_roster decode_entries
    roster_digest sort insert is_day day_prefix exactly after random_suffix at_end find any verify
    contextualize bytes_equal base64_to_bytes ◌<<◌ ◌===◌ decimal last_link since superseded_on
    current_on signing_keys_on length_prefixed_concat concat_onto append_length_prefixed uint32_be
    safe_text wrap_record_payload sort_key_day is_day_text signed_under decode_item item_payload
    judge_item check_signed_item check_post_signature check_comment_signature decode_wrap
    wrap_payload judge_wrap check_wrapper check_named check_wrap_record same_bytes is_next
    decode_evidence decode_all judge_link key_change_evidence compare_fingerprint judge_verification
    decode_verification evaluate_verification is_utc_day is_attestation
program = tt

abbrev keys : AuthorKeys
keys = record { signing_public_key = bob_key; key_changes = change ∷ [] }

-- Filed before the rotation, and signed with the key of that time.
abbrev post : SignedItem
post = record {
  group_id = codes "group";
  author_user_id = alice;
  sort_key = codes "POST#2024-02-10#0123456789abcdef";
  generation = 3;
  ciphertext = codes "hello";
  signature = alice_key;
}

post_valid : check_post_signature toy post none (some keys) ≡ valid
unfolding program
post_valid = refl

check_post_signature_sound_example :
    (author : AuthorKeys) × (day : Text) × (some keys ≡ some author)
    × IsSigningDay post none day
    × IsAuthentic toy SigningContext.post day post author
check_post_signature_sound_example = check_post_signature_sound toy post none (some keys) post_valid

abbrev path : Text
path = codes "0123456789abcdef"

comment_valid : check_comment_signature toy path post (codes "2024-02-11") (some keys) ≡ valid
unfolding program
comment_valid = refl

check_comment_signature_sound_example :
    (is_day_text (codes "2024-02-11") ≡ true)
    × (author : AuthorKeys) × (some keys ≡ some author)
    × IsAuthentic toy SigningContext.comment
        (codes "2024-02-11")
        (record post { sort_key = codes "CMT#" ++ path })
        author
check_comment_signature_sound_example =
    check_comment_signature_sound toy path post (codes "2024-02-11") (some keys) comment_valid

abbrev wrap : WireWrapRecord
wrap = record {
  wrapper_user_id = alice;
  reason = codes "approval";
  day = codes "2024-03-02";
  signature = bob_key;
}

abbrev entry : WrapInput
entry = record {
  group_id = codes "group";
  member_user_id = carol;
  generation = natural 3;
  wrap_epoch = some (natural 1);
  wrap_record = some wrap;
  wrapper = some keys;
}

entry_attested : check_wrap_record toy entry ≡ some (approved alice)
unfolding program
entry_attested = refl

attests : is_attestation (approved alice) ≡ true
unfolding program
attests = refl

check_wrap_record_sound_example :
    (r : WireWrapRecord) × (some wrap ≡ some r)
    × IsAttested toy entry r
    × IsEvidenceOf entry r (approved alice)
check_wrap_record_sound_example =
    check_wrap_record_sound toy entry (approved alice) entry_attested attests

-- The same record at an epoch that is not an integer: it throws.
abbrev half : WrapInput
half = record entry { wrap_epoch = some fraction }

half_throws : check_wrap_record toy half ≡ none
unfolding program
half_throws = refl

check_wrap_record_throws_example :
    (epoch : Number) × (some fraction ≡ some epoch)
    × ((safe_text (natural 3) ≡ none) ⊎ (safe_text epoch ≡ none))
check_wrap_record_throws_example = check_wrap_record_throws toy half half_throws

rotated : key_change_evidence toy alice (alice_key ∷ []) 0 bob_key (change ∷ []) ≡ signed_rotation
unfolding program
rotated = refl

key_change_evidence_sound_example :
    (current : Bytes) × (pinned : List Bytes) × (decode_evidence toy bob_key (alice_key ∷ [])
      ≡ some (current, pinned))
    × IsSignedRotation toy alice (change ∷ []) 0 current pinned
key_change_evidence_sound_example =
    key_change_evidence_sound toy alice (alice_key ∷ []) 0 bob_key (change ∷ []) rotated

abbrev compared : EvaluateVerificationInput
compared = record {
  verifier_user_id = bob;
  verifier_signing_public_key = bob_key;
  verifier_history = none;
  verified_user_id = alice;
  stored = some (record {
    verified_user_id = alice;
    fingerprint = codes "12345";
    verifier_signing_public_key = bob_key;
    signature = bob_key;
    signed_day = codes "2024-03-01";
  });
  served_fingerprint = some (codes "12345");
}

compared_verified : evaluate_verification toy compared ≡ verified
unfolding program
compared_verified = refl

evaluate_verification_sound_example : (r : VerificationRecord) × IsVerified toy compared r
evaluate_verification_sound_example = evaluate_verification_sound toy compared compared_verified
