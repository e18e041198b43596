-- ===== src/Tests/Pin.antt =====
-- Alice's pin of Bob, against what the server serves of him.
use undergroundbb.Wire.Signature.{contextualize, verify}
use undergroundbb.Wire.Compare.{bytes_equal}
use undergroundbb.Wire.Encoding.{base64_to_bytes}
use undergroundbb.Grant.SortKey.{after, exactly, day_prefix}
use undergroundbb.Pin.Sound.{evaluate_pin_rollback, evaluate_pin_matched, IsAsPinned, IsOwnPin}
use undergroundbb.Base.{◌===◌, every, any, ◌<◌, ℕ, ◌≡◌, refl, [], ◌∷◌, none, some, codes, Bytes}
use undergroundbb.Grant.Records.{safe_natural, natural}
use undergroundbb.Tests.Toy.{toy, alice, alice_key, bob, bob_key, carol_key}
use undergroundbb.Pin.Evaluate.{
  rollback, matched, payload_of, listed_signer, same_set, served_signing_key_set, compare_served,
  keys_onto, key_set, is_utc_day, usable, decode_pin, evaluate_decoded, evaluate_pin, DecodedPin,
  PinRecord, EvaluatePinInput,
}

abbrev wrapping_key : Bytes
wrapping_key = codes "bob-wrapping-key-of-32-bytes-000"

abbrev pin_of_bob : PinRecord
pin_of_bob = record {
  pinned_user_id = bob;
  signing_public_keys = bob_key ∷ carol_key ∷ [];
  wrapping_public_key = wrapping_key;
  pinner_signing_public_key = alice_key;
  signature = alice_key;
  key_epoch = natural 1;
  signed_day = codes "2024-03-01";
}

abbrev served_at : ℕ → EvaluatePinInput
served_at epoch = record {
  pinner_user_id = alice;
  pinner_signing_public_key = alice_key;
  pinner_history = none;
  pinned_user_id = bob;
  pin = some pin_of_bob;
  served = record {
    signing_public_key = carol_key;
    superseded_signing_keys = bob_key ∷ carol_key ∷ [];
    wrapping_public_key = wrapping_key;
    key_epoch = epoch;
  };
}

matches : evaluate_pin toy (served_at 1) ≡ matched
unfolding toy evaluate_pin evaluate_decoded decode_pin usable is_utc_day day_prefix exactly after
    safe_natural key_set keys_onto any every base64_to_bytes bytes_equal ◌===◌ verify contextualize
    compare_served served_signing_key_set same_set listed_signer payload_of
matches = refl

rolls_back : evaluate_pin toy (served_at 0) ≡ rollback
unfolding toy evaluate_pin evaluate_decoded decode_pin usable is_utc_day day_prefix exactly after
    safe_natural key_set keys_onto any every base64_to_bytes bytes_equal ◌===◌ verify contextualize
    compare_served served_signing_key_set same_set listed_signer payload_of
rolls_back = refl

evaluate_pin_matched_example :
    (pin : PinRecord) × (d : DecodedPin) × IsOwnPin toy (served_at 1) pin d
    × IsAsPinned toy (served_at 1) d
evaluate_pin_matched_example = evaluate_pin_matched toy (served_at 1) matches

evaluate_pin_rollback_example :
    (pin : PinRecord) × (d : DecodedPin) × IsOwnPin toy (served_at 0) pin d × (0 < d.epoch)
evaluate_pin_rollback_example = evaluate_pin_rollback toy (served_at 0) rolls_back
