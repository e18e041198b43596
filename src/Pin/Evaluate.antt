-- ===== src/Pin/Evaluate.antt =====
-- `evaluatePin` of pin.ts. The epoch that the server gives for the user is a natural number; that of
-- the pin is any number.
use undergroundbb.Base.{
  ℕ, Bool, false, not, ◌&&◌, ◌||◌, List, [], ◌∷◌, ◌++◌, Option, none, some, Text, Bytes, codes, ltb,
  ◌==◌, ◌===◌, any, every, length, if◌then◌else◌, ◌>>=◌, is_some,
}
use undergroundbb.Platform.{Platform}
use undergroundbb.Wire.Compare.{bytes_equal}
use undergroundbb.Wire.Encoding.{base64_to_bytes}
use undergroundbb.Wire.Signature.{SigningContext, verify}
use undergroundbb.Grant.Records.{safe_natural, Number}
use undergroundbb.Grant.SortKey.{day_prefix, at_end}
use undergroundbb.History.Records.{OwnKeyHistory}
use undergroundbb.History.Roster.{key_size}
use undergroundbb.History.Query.{own_signer_accepted}
use undergroundbb.Pin.Payload.{pin_payload}

pub record PinRecord : Type 0 where
  pub pinned_user_id : Text
  pub signing_public_keys : List Text
  pub wrapping_public_key : Text
  pub pinner_signing_public_key : Text
  pub signature : Text
  pub key_epoch : Number
  pub signed_day : Text

pub record ServedUserKeys : Type 0 where
  pub signing_public_key : Text
  pub superseded_signing_keys : List Text
  pub wrapping_public_key : Text
  pub key_epoch : ℕ

pub data PinVerdict : Type 0 where
  first_sight matched mismatch rollback bad_signature : PinVerdict

pub record EvaluatePinInput : Type 0 where
  pub pinner_user_id : Text
  pub pinner_signing_public_key : Bytes
  pub pinner_history : Option OwnKeyHistory
  pub pinned_user_id : Text
  pub pin : Option PinRecord
  pub served : ServedUserKeys

unfoldable pub same_set : List Bytes → List Bytes → Bool
same_set a b = length a == length b && every (λ x. any (λ y. bytes_equal x y) b) a

-- What the pin says, decoded.
pub record DecodedPin : Type 0 where
  pub signer : Bytes
  pub wrapping : Bytes
  pub signature : Bytes
  pub keys : List Bytes
  pub epoch : ℕ

module _ (platform : Platform) where
  open platform use {date_parse, iso_day}

  unfoldable pub is_utc_day : Text → Bool
  is_utc_day s =
      is_some (day_prefix s >>= λ d. at_end d.1)
      && is_some (
          date_parse (s ++ codes "T00:00:00Z") >>= λ ms. if iso_day ms === s then some ms else none)

  -- The loop of `keySet`, behind the keys already in `out`.
  unfoldable pub keys_onto : List Bytes → List Text → Option (List Bytes)
  keys_onto out [] = some out
  keys_onto out (k ∷ ks) = base64_to_bytes platform k >>= λ b.
      if not (length b == key_size)
      then none
      else keys_onto (if any (λ o. bytes_equal o b) out then out else out ++ b ∷ []) ks

  unfoldable pub key_set : List Text → Option (List Bytes)
  unfolding keys_onto
  key_set keys = keys_onto [] keys

  unfoldable pub served_signing_key_set : ServedUserKeys → Option (List Bytes)
  served_signing_key_set served =
      key_set (served.signing_public_key ∷ served.superseded_signing_keys)

  -- The day is real and the set is not empty.
  unfoldable pub usable : PinRecord → DecodedPin → Option DecodedPin
  usable pin d =
      if not (is_utc_day pin.signed_day) then none else if length d.keys == 0 then none else some d

  -- The fields of the pin, where all of them are well formed.
  unfoldable pub decode_pin : PinRecord → Option DecodedPin
  unfolding usable
  decode_pin pin = do
    signer ← base64_to_bytes platform pin.pinner_signing_public_key
    wrapping ← base64_to_bytes platform pin.wrapping_public_key
    signature ← base64_to_bytes platform pin.signature
    keys ← key_set pin.signing_public_keys
    epoch ← safe_natural pin.key_epoch
    usable pin (record {
      signer = signer;
      wrapping = wrapping;
      signature = signature;
      keys = keys;
      epoch = epoch;
    })

  -- Whether a signer other than the caller's current key may have signed the pin.
  unfoldable pub listed_signer : EvaluatePinInput → DecodedPin → Text → Bool
  listed_signer input d day = elim input.pinner_history [
    | none ↦ false
    | some history ↦
        bytes_equal history.current input.pinner_signing_public_key
        && own_signer_accepted platform history d.signer day (codes "PIN#" ++ input.pinned_user_id)
            d.signature
  ]

  -- From the point where the pin is known to be the caller's.
  unfoldable pub compare_served : DecodedPin → ServedUserKeys → PinVerdict
  compare_served d served =
      if ltb served.key_epoch d.epoch then rollback else elim (served_signing_key_set served) [
        | none ↦ mismatch
        | some keys ↦ elim (base64_to_bytes platform served.wrapping_public_key) [
          | none ↦ mismatch
          | some wrapping ↦
              if not (served.key_epoch == d.epoch)
                || (not (same_set d.keys keys) || not (bytes_equal d.wrapping wrapping))
              then mismatch
              else matched
        ]
      ]

  unfoldable pub payload_of : EvaluatePinInput → DecodedPin → Text → Bytes
  payload_of input d day =
      pin_payload platform input.pinner_user_id input.pinned_user_id d.signer d.wrapping d.keys
        d.epoch day

  unfoldable pub evaluate_decoded : EvaluatePinInput → DecodedPin → Text → PinVerdict
  unfolding payload_of
  evaluate_decoded input d day =
      if not (bytes_equal d.signer input.pinner_signing_public_key)
        && not (listed_signer input d day)
      then bad_signature
      else if not (verify platform d.signer SigningContext.pin (payload_of input d day) d.signature)
      then bad_signature
      else compare_served d input.served

  unfoldable pub evaluate_pin : EvaluatePinInput → PinVerdict
  evaluate_pin input = elim input.pin [
    | none ↦ first_sight
    | some pin ↦
        if not (pin.pinned_user_id === input.pinned_user_id)
        then bad_signature
        else elim (decode_pin pin) [
          | none ↦ bad_signature
          | some d ↦ evaluate_decoded input d pin.signed_day
        ]
  ]
