-- ===== src/Pin/Payload.antt =====
-- `pinPayload` of pin.ts.
use undergroundbb.Base.{ℕ, List, ◌∷◌, Text, Bytes, length}
use undergroundbb.Platform.{Platform}
use undergroundbb.Wire.Decimal.{decimal}
use undergroundbb.Wire.Encoding.{length_prefixed_concat}
use undergroundbb.History.Roster.{sort}

-- The signing keys are signed as a set: they are sorted first.
unfoldable pub pin_payload : Platform → Text → Text → Bytes → Bytes → List Bytes → ℕ → Text → Bytes
pin_payload platform pinner_uuid pinned_uuid pinner_key wrapping_key signing_keys key_epoch
      utc_day =
    let sorted = sort signing_keys in
    length_prefixed_concat (
      platform.utf8 pinner_uuid
      ∷ platform.utf8 pinned_uuid
      ∷ pinner_key
      ∷ wrapping_key
      ∷ platform.utf8 utc_day
      ∷ platform.utf8 (decimal key_epoch)
      ∷ platform.utf8 (decimal (length sorted))
      ∷ sorted)
