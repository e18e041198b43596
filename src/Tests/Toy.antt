-- ===== src/Tests/Toy.antt =====
-- A small stand-in for the browser and the packages, and rows for the other tests.
use undergroundbb.Base.{
  ◌||◌, zero, take, suc, if◌then◌else◌, ℕ, ◌+◌, ◌*◌, ◌-◌, [], ◌∷◌, ◌++◌, Option, none, some, Text,
  Bytes, codes, ◌===◌, false, ◌≡◌, ◌≢◌, ===_iff,
}
use undergroundbb.Platform.{Platform}
use undergroundbb.Grant.Records.{
  GrantRecord, DesignationRecord, UserKeyHistory, GrantAnchor, GrantChainInput, natural,
}
use undergroundbb.Grant.Keys.{day_ms}

-- The instant of a text `YYYY-MM-DD…`, in months of 31 days.
abbrev pub toy_date : Text → Option ℕ
toy_date (a ∷ b ∷ c ∷ d ∷ e ∷ f ∷ g ∷ h ∷ i ∷ j ∷ rest) = some (
    (((a - 48) * 1000 + (b - 48) * 100 + (c - 48) * 10 + (d - 48)) * 372
      + ((f - 48) * 10 + (g - 48)) * 31
      + ((i - 48) * 10 + (j - 48)))
    * day_ms)
toy_date s = none

abbrev pub zeros : ℕ → Bytes
zeros zero = []
zeros (suc n) = 0 ∷ zeros n

-- It knows one day to print. Here a signature is the key that made it, once or twice.
unfoldable pub toy : Platform
toy = record {
  atob = some;
  utf8 = λ s. s;
  sha256 = λ b. take 32 (b ++ zeros 32);
  ed25519_verify = λ sig msg key. some (sig === key || sig === key ++ key);
  date_parse = toy_date;
  iso_day = λ t. codes "2024-03-01";
}

abbrev pub alice : Text
alice = codes "aaaaaaaa-aaaa-aaaa-aaaa-aaaaaaaaaaaa"

abbrev pub bob : Text
bob = codes "bbbbbbbb-bbbb-bbbb-bbbb-bbbbbbbbbbbb"

abbrev pub carol : Text
carol = codes "cccccccc-cccc-cccc-cccc-cccccccccccc"

abbrev pub alice_key : Bytes
alice_key = codes "alice-key-of-exactly-32-bytes-aa"

abbrev pub bob_key : Bytes
bob_key = codes "bob---key-of-exactly-32-bytes-bb"

abbrev pub carol_key : Bytes
carol_key = codes "carol-key-of-exactly-32-bytes-cc"

abbrev pub history : Bytes → UserKeyHistory
history key = record { signing_public_key = key; superseded_signing_keys = [] }

unfoldable pub histories : Text → Option UserKeyHistory
histories user =
    if user === alice
    then some (history alice_key)
    else if user === bob
    then some (history bob_key)
    else if user === carol
    then some (history carol_key)
    else none

abbrev pub grant_key : Text → Text → Text
grant_key user day = codes "GRANT#" ++ (user ++ (codes "#" ++ (day ++ codes "#0123456789abcdef")))

abbrev pub root_grant : GrantRecord
root_grant = record {
  sort_key = grant_key alice (codes "2024-01-01");
  subject_user_id = alice;
  granted_role = codes "admin";
  grantor_user_id = alice;
  grantor_signing_public_key = none;
  grantor_grant_ref = none;
  via_designation = none;
  signature = alice_key;
}

abbrev pub bob_admin : GrantRecord
bob_admin = record {
  sort_key = grant_key bob (codes "2024-01-02");
  subject_user_id = bob;
  granted_role = codes "admin";
  grantor_user_id = alice;
  grantor_signing_public_key = none;
  grantor_grant_ref = some root_grant.sort_key;
  via_designation = none;
  signature = alice_key;
}

abbrev pub bob_down : GrantRecord
bob_down = record {
  sort_key = grant_key bob (codes "2024-01-03");
  subject_user_id = bob;
  granted_role = codes "member";
  grantor_user_id = bob;
  grantor_signing_public_key = none;
  grantor_grant_ref = some bob_admin.sort_key;
  via_designation = none;
  signature = bob_key;
}

abbrev pub designation : DesignationRecord
designation = record {
  sort_key = codes "DESIGNATION#" ++ (alice ++ codes "#2024-02-01#0123456789abcdef");
  admin_user_id = alice;
  successor_user_id = some carol;
  period_days = natural 30;
  admin_grant_ref = root_grant.sort_key;
  signature = alice_key;
}

abbrev pub carol_claim : GrantRecord
carol_claim = record {
  sort_key = grant_key carol (codes "2024-03-05");
  subject_user_id = carol;
  granted_role = codes "admin";
  grantor_user_id = alice;
  grantor_signing_public_key = none;
  grantor_grant_ref = some root_grant.sort_key;
  via_designation = some designation.sort_key;
  signature = carol_key;
}

abbrev pub anchor : GrantAnchor
anchor = record {
  creator_user_id = alice;
  creator_signing_public_key = alice_key;
  trust_anchor_signature = alice_key;
  root_grant_sort_key = root_grant.sort_key;
}

-- Alice founds the group and makes Bob an admin; he steps down; Carol succeeds Alice.
unfoldable pub story : GrantChainInput
story = record {
  group_id = codes "group";
  anchor = anchor;
  pinned_anchor = none;
  grants = root_grant ∷ bob_admin ∷ bob_down ∷ carol_claim ∷ [];
  key_histories = histories;
  designations = some (designation ∷ []);
  now = none;
}

pub apart : (a b : Text) → (a === b) ≡ false → a ≢ b
apart a b e same = cc (e, (===_iff a b).1 same)
