-- ===== src/Pin/Sound.antt =====
-- What the verdicts of `evaluatePin` rest on.
use undergroundbb.Grant.Records.{safe_natural}
use undergroundbb.Base.{
  length, guard-eq-some, ap, >>=-eq-some, ◌<◌, ◌≡◌, ◌≢◌, sym, subst, ◌∙◌, ◌⊎◌, inl, inr, true, List,
  some, arith, Text, Bytes, In, Bool-cases, Option-cases, ◌==◌, ==_iff, ◌===◌, ===_iff, ltb,
}
use undergroundbb.Platform.{Platform}
use undergroundbb.Wire.Compare.{bytes_equal, bytes_equal_iff}
use undergroundbb.Wire.Encoding.{base64_to_bytes}
use undergroundbb.Wire.Signature.{SigningContext, verify}
use undergroundbb.Pin.Evaluate.{
  is_utc_day, EvaluatePinInput, PinRecord, DecodedPin, PinVerdict, first_sight, matched, rollback,
  bad_signature, evaluate_pin, evaluate_decoded, compare_served, listed_signer, payload_of,
  decode_pin, same_set, served_signing_key_set, key_set, usable,
}
use undergroundbb.Pin.Sets.{same_set_sound, key_set-IsDistinct, IsDistinct}

-- The pin is about the user asked for, well formed, and signed by the caller: under their current
-- key, or under one that their verified history lists this very row under.
pub record IsOwnPin (platform : Platform) (input : EvaluatePinInput) (pin : PinRecord)
    (d : DecodedPin) : Type 0 where
  pub is_pin : input.pin ≡ some pin
  pub about : pin.pinned_user_id ≡ input.pinned_user_id
  pub decoded : decode_pin platform pin ≡ some d
  pub own_signer :
      (d.signer ≡ input.pinner_signing_public_key)
      ⊎ (listed_signer platform input d pin.signed_day ≡ true)
  pub signed :
      verify platform d.signer SigningContext.pin
        (payload_of platform input d pin.signed_day)
        d.signature
      ≡ true

module _ (platform : Platform) (input : EvaluatePinInput) where
  own_decoded :
      (d : DecodedPin) (day : Text) (v : PinVerdict)
      → v ≢ bad_signature
      → evaluate_decoded platform input d day ≡ v
      → ((d.signer ≡ input.pinner_signing_public_key) ⊎ (listed_signer platform input d day ≡ true))
        × (verify platform d.signer SigningContext.pin (payload_of platform input d day) d.signature
            ≡ true)
        × (compare_served platform d input.served ≡ v)
  unfolding evaluate_decoded
  own_decoded d day v good e =
      elim (Bool-cases (
        verify platform d.signer SigningContext.pin (payload_of platform input d day)
          d.signature)) [
            | inr unsigned ↦ absurd (ground (arith, unsigned, e, good))
            | inl signed ↦
                elim (Bool-cases (bytes_equal d.signer input.pinner_signing_public_key)) [
                  | inl own ↦
                      (inl ((bytes_equal_iff _ _).0 own), signed, ground (arith, own, signed, e))
                  | inr other ↦ elim (Bool-cases (listed_signer platform input d day)) [
                    | inl listed ↦ (inr listed, signed, ground (arith, other, listed, signed, e))
                    | inr unlisted ↦ absurd (ground (arith, other, unlisted, e, good))
                  ]
                ]
          ]

  -- Any verdict on the served keys themselves is on a pin of the caller's own.
  judged_own :
      (v : PinVerdict)
      → v ≢ first_sight
      → v ≢ bad_signature
      → evaluate_pin platform input ≡ v
      → (pin : PinRecord) × (d : DecodedPin) × IsOwnPin platform input pin d
        × (compare_served platform d input.served ≡ v)
  unfolding evaluate_pin
  judged_own v seen good e = elim (Option-cases input.pin) [
    | inl no_pin ↦ absurd (ground (arith, no_pin, e, seen))
    | inr (pin, at) ↦ elim (Bool-cases (pin.pinned_user_id === input.pinned_user_id)) [
      | inr other ↦ absurd (ground (arith, at, other, e, good))
      | inl about ↦ elim (Option-cases (decode_pin platform pin)) [
        | inl malformed ↦ absurd (ground (arith, at, about, malformed, e, good))
        | inr (d, decoded) ↦
            let (own, signed, compared) =
              own_decoded d pin.signed_day v good (ground (arith, at, about, decoded, e)) in
            (
              pin,
              d,
              record {
                is_pin = at;
                about = (===_iff pin.pinned_user_id input.pinned_user_id).0 about;
                decoded = decoded;
                own_signer = own;
                signed = signed;
              },
              compared,
            )
      ]
    ]
  ]

  usable_same : (pin : PinRecord) (d o : DecodedPin) → usable platform pin d ≡ some o → d ≡ o
  unfolding usable
  usable_same pin d o e =
      let (real, more) = guard-eq-some (is_utc_day platform pin.signed_day) _ e in
      elim (Bool-cases (length d.keys == 0)) [
        | inl no_key ↦ absurd (ground (arith, no_key, more))
        | inr some_key ↦ let same : some d ≡ some o = rw some_key at more in cc same
      ]

  decode_pin-IsDistinct :
      (pin : PinRecord) (d : DecodedPin) → decode_pin platform pin ≡ some d → IsDistinct d.keys
  unfolding decode_pin usable
  decode_pin-IsDistinct pin d e =
      let (signer, e1, r1) =
        >>=-eq-some (base64_to_bytes platform pin.pinner_signing_public_key) _ e in
      let (wrapping, e2, r2) =
        >>=-eq-some (base64_to_bytes platform pin.wrapping_public_key) _ r1 in
      let (signature, e3, r3) = >>=-eq-some (base64_to_bytes platform pin.signature) _ r2 in
      let (keys, e4, r4) = >>=-eq-some (key_set platform pin.signing_public_keys) _ r3 in
      let (epoch, e5, r5) = >>=-eq-some (safe_natural pin.key_epoch) _ r4 in
      let same =
        usable_same pin
          (record {
            signer = signer;
            wrapping = wrapping;
            signature = signature;
            keys = keys;
            epoch = epoch;
          })
          d r5 in
      subst (λ o. IsDistinct o.keys) same
        (key_set-IsDistinct platform pin.signing_public_keys keys e4)

  -- The served keys are the pinned ones.
  pub record IsAsPinned (d : DecodedPin) : Type 0 where
    pub same_epoch : input.served.key_epoch ≡ d.epoch
    pub served : List Bytes
    pub is_served : served_signing_key_set platform input.served ≡ some served
    pub same_keys : (z : Bytes) → (In z d.keys → In z served) × (In z served → In z d.keys)
    pub same_wrapping : base64_to_bytes platform input.served.wrapping_public_key ≡ some d.wrapping

  compared_matched :
      (d : DecodedPin)
      → IsDistinct d.keys
      → compare_served platform d input.served ≡ matched
      → IsAsPinned d
  unfolding compare_served
  compared_matched d distinct e = elim (Bool-cases (ltb input.served.key_epoch d.epoch)) [
    | inl older ↦ absurd (ground (arith, older, e))
    | inr kept ↦ elim (Option-cases (served_signing_key_set platform input.served)) [
      | inl malformed ↦ absurd (ground (arith, kept, malformed, e))
      | inr (keys, is_served) ↦
          elim (Option-cases (base64_to_bytes platform input.served.wrapping_public_key)) [
            | inl malformed ↦ absurd (ground (arith, kept, is_served, malformed, e))
            | inr (wrapping, read) ↦
                let facts : ((input.served.key_epoch == d.epoch) ≡ true)
                    × (same_set d.keys keys ≡ true)
                    × (bytes_equal d.wrapping wrapping ≡ true) =
                  ground (arith, kept, is_served, read, e) in
                record {
                  same_epoch = (==_iff input.served.key_epoch d.epoch).0 facts.0;
                  served = keys;
                  is_served = is_served;
                  same_keys = same_set_sound d.keys keys distinct facts.1;
                  same_wrapping =
                      read ∙ sym (ap some ((bytes_equal_iff d.wrapping wrapping).0 facts.2));
                }
          ]
    ]
  ]

  compared_rollback :
      (d : DecodedPin)
      → compare_served platform d input.served ≡ rollback
      → input.served.key_epoch < d.epoch
  unfolding compare_served
  compared_rollback d e = elim (Bool-cases (ltb input.served.key_epoch d.epoch)) [
    | inl older ↦ ground (arith, older)
    | inr kept ↦ elim (Option-cases (served_signing_key_set platform input.served)) [
      | inl malformed ↦ absurd (ground (arith, kept, malformed, e))
      | inr (keys, is_served) ↦
          elim (Option-cases (base64_to_bytes platform input.served.wrapping_public_key)) [
            | inl malformed ↦ absurd (ground (arith, kept, is_served, malformed, e))
            | inr (wrapping, read) ↦ absurd (ground (arith, kept, is_served, read, e))
          ]
    ]
  ]

  -- A match is against a pin of the caller's own, and the user's epoch, wrapping key and set of
  -- signing keys, current and superseded, are exactly the pinned ones.
  pub evaluate_pin_matched :
      evaluate_pin platform input ≡ matched
      → (pin : PinRecord) × (d : DecodedPin) × IsOwnPin platform input pin d × IsAsPinned d
  evaluate_pin_matched e =
      let (pin, d, own, compared) = judged_own matched (λ p. cc p) (λ p. cc p) e in
      (pin, d, own, compared_matched d (decode_pin-IsDistinct pin d own.decoded) compared)

  -- A rollback is called only on a pin of the caller's own with an epoch above the served one.
  pub evaluate_pin_rollback :
      evaluate_pin platform input ≡ rollback
      → (pin : PinRecord) × (d : DecodedPin) × IsOwnPin platform input pin d
        × (input.served.key_epoch < d.epoch)
  evaluate_pin_rollback e =
      let (pin, d, own, compared) = judged_own rollback (λ p. cc p) (λ p. cc p) e in
      (pin, d, own, compared_rollback d compared)
