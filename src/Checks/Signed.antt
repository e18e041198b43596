-- ===== src/Checks/Signed.antt =====
-- What it is for an item to be signed by a user, on a day, under their verified history.
use undergroundbb.History.Held.{signing_keys_on_sound, MayHaveSigned}
use undergroundbb.History.Served.{build_own_key_history-IsServed}
use undergroundbb.Base.{◌≡◌, true, List, [], none, some, Text, Bytes, any-In}
use undergroundbb.Platform.{Platform}
use undergroundbb.Wire.Signature.{SigningContext, verify}
use undergroundbb.History.Records.{WireKeyChange, OwnKeyHistory}
use undergroundbb.History.Build.{build_own_key_history}
use undergroundbb.History.Query.{signing_keys_on}
use undergroundbb.History.Chain.{IsServed, IsChain}
use undergroundbb.History.Sound.{build_own_key_history-IsChain}
use undergroundbb.Checks.Items.{signed_under}

-- The user's rotations, all of them, form a verified chain that ends at the key `current`, and a key
-- that may have signed on the day by that chain signed the payload under the context.
pub record IsSignedBy (platform : Platform) (user : Text) (changes : List WireKeyChange)
    (current : Bytes) (day : Text) (context : SigningContext) (payload signature : Bytes)
    : Type 0 where
  pub history : OwnKeyHistory
  pub chain : IsChain platform user current 0 none history.links
  pub served : IsServed platform user changes history.links
  pub is_current : history.current ≡ current
  pub key : Bytes
  pub held : MayHaveSigned history current day key
  pub verifies : verify platform key context payload signature ≡ true

pub signed_under-IsSignedBy :
    (platform : Platform) (user : Text) (current : Bytes) (changes : List WireKeyChange)
    (history : OwnKeyHistory) (day : Text) (context : SigningContext) (payload signature : Bytes)
    → build_own_key_history platform user current changes [] ≡ some history
    → signed_under platform history current day context payload signature ≡ true
    → IsSignedBy platform user changes current day context payload signature
unfolding signed_under
signed_under-IsSignedBy platform user current changes history day context payload signature e s =
    let (key, candidate, verifies) =
      any-In (λ k. verify platform k context payload signature)
        (signing_keys_on history current day) s in
    record {
      history = history;
      chain = (build_own_key_history-IsChain platform user current changes [] history e).1;
      served = build_own_key_history-IsServed platform user current changes [] history e;
      is_current = (build_own_key_history-IsChain platform user current changes [] history e).0;
      key = key;
      held = signing_keys_on_sound history current day key candidate;
      verifies = verifies;
    }
