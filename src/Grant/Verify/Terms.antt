-- ===== src/Grant/Verify/Terms.antt =====
-- What `verifyGrantChain` computes before its recursion: the anchor, the pin and the indexes.
use undergroundbb.Base.{
  ℕ, Bool, false, not, ◌&&◌, List, [], ◌∷◌, Option, none, some, Text, Bytes, codes, ltb, leb, ◌===◌,
  keep, any, length, is_some,
}
use undergroundbb.Platform.{Platform}
use undergroundbb.Wire.Compare.{bytes_equal}
use undergroundbb.Wire.Encoding.{decode}
use undergroundbb.Wire.Signature.{SigningContext, verify}
use undergroundbb.Payloads.{trust_anchor_payload}
use undergroundbb.Grant.Records.{
  max_safe_integer, Number, natural, negative, fraction, GrantRecord, DesignationRecord,
  PinnedAnchor, GrantChainInput,
}

-- `x ?? ''`
abbrev pub or_empty : Option Text → Text
or_empty none = []
or_empty (some s) = s

-- `x === y` where `x` may be undefined.
abbrev pub names : Option Text → Text → Bool
names none y = false
names (some x) y = x === y

abbrev pub min_period_days : ℕ
min_period_days = 30

abbrev pub max_period_days : ℕ
max_period_days = 365

-- The number, if `Number.isSafeInteger(n) && n >= MIN_PERIOD_DAYS && n <= MAX_PERIOD_DAYS`.
unfoldable pub period_in_range : Number → Bool
period_in_range (natural n) =
    leb n max_safe_integer && (not (ltb n min_period_days) && not (ltb max_period_days n))
period_in_range (negative n) = false
period_in_range fraction = false

-- The value of a period that is in range.
abbrev pub days : Number → ℕ
days (natural n) = n
days (negative n) = 0
days fraction = 0

unfoldable pub is_role : Text → Bool
is_role role = any (λ r. r === role) (codes "admin" ∷ codes "ambassador" ∷ codes "member" ∷ [])

-- A sort key that is served twice: `duplicated.has(key)`.
unfoldable pub duplicated : Text → List GrantRecord → Bool
duplicated key grants = ltb 1 (length (keep (λ g. g.sort_key === key) grants))

unfoldable pub duplicated_designation : Text → List DesignationRecord → Bool
duplicated_designation key ds = ltb 1 (length (keep (λ d. d.sort_key === key) ds))

-- `designationByKey.get(key)`: the last row set.
unfoldable pub last_of :
    Option DesignationRecord → List DesignationRecord → Option DesignationRecord
last_of found [] = found
last_of found (d ∷ ds) = last_of (some d) ds

unfoldable pub designation_at : Text → List DesignationRecord → Option DesignationRecord
unfolding last_of
designation_at key ds = last_of none (keep (λ d. d.sort_key === key) ds)

-- `citing.get(key) ?? 0`, where only a row with a designation key that is not empty is counted.
unfoldable pub cites : Text → GrantRecord → Bool
cites key g = elim g.via_designation [ none ↦ false | some via ↦ not (via === []) && via === key ]

unfoldable pub citing : Text → List GrantRecord → ℕ
unfolding cites
citing key grants = length (keep (cites key) grants)

unfoldable pub designations_by : Text → List DesignationRecord → List DesignationRecord
designations_by admin = keep (λ d. d.admin_user_id === admin)

module _ (platform : Platform) (input : GrantChainInput) where
  unfoldable pub served_designations : List DesignationRecord
  served_designations = elim input.designations [ none ↦ [] | some ds ↦ ds ]

  unfoldable pub anchor_key : Option Bytes
  anchor_key = decode platform (some input.anchor.creator_signing_public_key)

  pin_agrees : Option PinnedAnchor → Option Bytes → Bool
  pin_agrees none anchor = false
  pin_agrees (some pin) none = false
  pin_agrees (some pin) (some anchor) =
      elim (decode platform (some pin.creator_signing_public_key)) [
        | none ↦ false
        | some key ↦ pin.creator_user_id === input.anchor.creator_user_id && bytes_equal key anchor
      ]

  unfoldable pub pin_matched : Bool
  unfolding pin_agrees
  pin_matched = pin_agrees input.pinned_anchor anchor_key

  unfoldable pub pin_mismatch : Bool
  pin_mismatch = is_some input.pinned_anchor && not pin_matched

  anchor_signed : Option Bytes → Option Bytes → Bool
  anchor_signed none sig = false
  anchor_signed (some key) none = false
  anchor_signed (some key) (some sig) =
      verify platform key SigningContext.trust_anchor
        (trust_anchor_payload platform input.anchor.creator_user_id key input.group_id) sig

  unfoldable pub anchor_valid : Bool
  unfolding anchor_signed
  anchor_valid =
      not pin_mismatch
      && anchor_signed anchor_key (decode platform (some input.anchor.trust_anchor_signature))
