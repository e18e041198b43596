-- ===== src/Grant/Keys.antt =====
-- `keysOnDay` of grant-chain.ts: the keys that a user held on a UTC day, from the served history.
use undergroundbb.Base.{
  ℕ, ◌+◌, ◌*◌, max, Bool, true, ◌&&◌, List, [], ◌∷◌, ◌++◌, Option, none, some, Text, Bytes, ltb,
  leb, any, if◌then◌else◌,
}
use undergroundbb.Platform.{Platform}
use undergroundbb.Wire.Encoding.{decode}
use undergroundbb.Wire.Signature.{SigningContext, verify}
use undergroundbb.Grant.Records.{SupersededKey, UserKeyHistory}

abbrev pub day_ms : ℕ
day_ms = 24 * 60 * 60 * 1000

-- `out.push(key)` for a key that decodes.
abbrev pub push : List Bytes → Option Bytes → List Bytes
push out none = out
push out (some key) = out ++ key ∷ []

-- `Math.max`, and `<`, of a bound that starts at -Infinity.
abbrev pub raise_to : Option ℕ → ℕ → Option ℕ
raise_to none t = some t
raise_to (some b) t = some (max b t)

abbrev pub below : Option ℕ → ℕ → Bool
below none t = true
below (some b) t = ltb b t

module _ (platform : Platform) where
  open platform use {date_parse}

  -- `k.until ? Date.parse(k.until) : NaN`
  end_of : Option Text → Option ℕ
  end_of none = none
  end_of (some []) = none
  end_of (some (c ∷ s)) = date_parse (c ∷ s)

  -- The loop over the superseded keys, and the current key behind it.
  keys_from : UserKeyHistory → ℕ → List SupersededKey → Option ℕ → List Bytes → List Bytes
  unfolding end_of
  keys_from history day_start [] current_from out =
      if below current_from (day_start + day_ms)
      then push out (decode platform (some history.signing_public_key))
      else out
  keys_from history day_start (k ∷ ks) current_from out = elim (date_parse k.from) [
    | none ↦ keys_from history day_start ks current_from out
    | some from ↦ elim (end_of k.until) [
      | none ↦ keys_from history day_start ks current_from out
      | some until ↦ keys_from history day_start ks (raise_to current_from until) (
          if ltb from (day_start + day_ms) && leb day_start until
          then push out (decode platform (some k.public_key))
          else out)
    ]
  ]

  unfoldable pub keys_on_day : UserKeyHistory → ℕ → List Bytes
  unfolding keys_from
  keys_on_day history day_start =
      keys_from history day_start history.superseded_signing_keys none []

  -- `for (const key of keysOnDay(history, day)) if (verify(key, …)) return { valid: true }`
  unfoldable pub signed_on_day : UserKeyHistory → ℕ → SigningContext → Bytes → Bytes → Bool
  signed_on_day history day context payload sig =
      any (λ key. verify platform key context payload sig) (keys_on_day history day)
