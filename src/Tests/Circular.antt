-- ===== src/Tests/Circular.antt =====
-- Two rows and a designation on which the verifier does not come to an end.
use undergroundbb.Wire.Encoding.{base64_to_bytes, decode}
use undergroundbb.Grant.Keys.{day_ms}
use undergroundbb.Grant.Verify.{period_in_range, verify_grant_chain}
use undergroundbb.Grant.SortKey.{
  tagged_key, random_suffix, exactly, day_prefix, after, parse_designation_key, parse_sort_key,
}
use undergroundbb.Base.{arith, ◌===◌, ◌*◌, ◌++◌, ◌≡◌, refl, [], ◌∷◌, none, some, codes}
use undergroundbb.Grant.Circular.{IsCircular, circular_rows_overflow}
use undergroundbb.Grant.Records.{GrantRecord, DesignationRecord, GrantChainInput, natural}
use undergroundbb.Tests.Toy.{
  histories, anchor, toy, alice, bob, bob_key, alice_key, grant_key, apart,
}

abbrev early_claim : GrantRecord
early_claim = record {
  sort_key = grant_key bob (codes "2024-01-01");
  subject_user_id = bob;
  granted_role = codes "admin";
  grantor_user_id = alice;
  grantor_signing_public_key = none;
  grantor_grant_ref = some (grant_key alice (codes "2024-01-02"));
  via_designation = some (codes "DESIGNATION#" ++ (alice ++ codes "#2024-02-01#0123456789abcdef"));
  signature = bob_key;
}

abbrev raised : GrantRecord
raised = record {
  sort_key = grant_key alice (codes "2024-01-02");
  subject_user_id = alice;
  granted_role = codes "admin";
  grantor_user_id = bob;
  grantor_signing_public_key = none;
  grantor_grant_ref = some early_claim.sort_key;
  via_designation = none;
  signature = bob_key;
}

abbrev later_designation : DesignationRecord
later_designation = record {
  sort_key = codes "DESIGNATION#" ++ (alice ++ codes "#2024-02-01#0123456789abcdef");
  admin_user_id = alice;
  successor_user_id = some bob;
  period_days = natural 30;
  admin_grant_ref = raised.sort_key;
  signature = alice_key;
}

abbrev circular : GrantChainInput
circular = record {
  group_id = codes "group";
  anchor = anchor;
  pinned_anchor = none;
  grants = early_claim ∷ raised ∷ [];
  key_histories = histories;
  designations = some (later_designation ∷ []);
  now = none;
}

bob_day :
    parse_sort_key toy early_claim.sort_key ≡ some (record { subject = bob; day = 752960 * day_ms })
unfolding parse_sort_key parse_designation_key ◌===◌ after day_prefix exactly random_suffix
    tagged_key decode base64_to_bytes period_in_range toy
bob_day = refl

alice_day :
    parse_sort_key toy raised.sort_key ≡ some (record { subject = alice; day = 752961 * day_ms })
unfolding parse_sort_key parse_designation_key ◌===◌ after day_prefix exactly random_suffix
    tagged_key decode base64_to_bytes period_in_range toy
alice_day = refl

later_day :
    parse_designation_key toy later_designation.sort_key
    ≡ some (record { subject = alice; day = 752991 * day_ms })
unfolding parse_sort_key parse_designation_key ◌===◌ after day_prefix exactly random_suffix
    tagged_key decode base64_to_bytes period_in_range toy
later_day = refl

readable :
    (decode toy (some bob_key) ≡ some bob_key) × (decode toy (some alice_key) ≡ some alice_key)
unfolding parse_sort_key parse_designation_key ◌===◌ after day_prefix exactly random_suffix
    tagged_key decode base64_to_bytes period_in_range toy
readable = (refl, refl)

is_circular :
    IsCircular toy circular early_claim raised later_designation
      (752960 * day_ms)
      (752961 * day_ms)
      (752991 * day_ms)
unfolding parse_sort_key parse_designation_key ◌===◌ after day_prefix exactly random_suffix
    tagged_key decode base64_to_bytes period_in_range toy
is_circular = record {
  grants = refl;
  designations = refl;
  claim_readable = record { parses = bob_day; sig = bob_key; decodes = readable.0; admin = refl };
  grant_readable = record { parses = alice_day; sig = bob_key; decodes = readable.0; admin = refl };
  d_parses = later_day;
  d_sig = alice_key;
  d_decodes = readable.1;
  d_period = refl;
  days_in_order = (omega arith, omega arith);
  keys_differ = apart early_claim.sort_key raised.sort_key refl;
  via = refl;
  d_key_written = apart later_designation.sort_key [] refl;
  no_via = refl;
  not_root = apart raised.sort_key anchor.root_grant_sort_key refl;
  to_admin = refl;
  by_claimant = refl;
  claimant_other = apart bob alice refl;
  admin_ref = refl;
  grant_key_written = apart raised.sort_key [] refl;
  claim_key_written = apart early_claim.sort_key [] refl;
  grantor_ref = refl;
}

circular_rows_overflow_example : verify_grant_chain toy 1000 circular ≡ none
circular_rows_overflow_example =
    circular_rows_overflow toy circular early_claim raised later_designation (752960 * day_ms)
      (752961 * day_ms) (752991 * day_ms) is_circular 1000
