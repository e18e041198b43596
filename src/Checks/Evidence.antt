-- ===== src/Checks/Evidence.antt =====
-- key-change-evidence.ts: whether a signed rotation leads from the saved keys to the served ones. The
-- pin's epoch is a natural number: runAcceptKeyChange.ts asks only about a pin that evaluatePin has
-- called a mismatch, and evaluatePin refuses a pin whose epoch is not a safe integer or is negative.
use undergroundbb.Base.{
  ℕ, suc, Bool, ◌&&◌, List, [], ◌∷◌, Option, none, some, Text, Bytes, ◌==◌, ◌===◌, any, find,
  length, if◌then◌else◌, ◌>>=◌,
}
use undergroundbb.Platform.{Platform}
use undergroundbb.Wire.Encoding.{base64_to_bytes}
use undergroundbb.History.Records.{WireKeyChange, OwnKeyLink}
use undergroundbb.History.Build.{build_own_key_history}

pub data KeyChangeEvidence : Type 0 where
  signed_rotation no_link unverified : KeyChangeEvidence

-- `a.length === b.length && a.every((x, i) => x === b[i])`
unfoldable pub same_bytes : Bytes → Bytes → Bool
same_bytes a b = length a == length b && a === b

-- `l.epoch === pin.keyEpoch + 1`
unfoldable pub is_next : ℕ → ℕ → Bool
is_next pin_epoch epoch = epoch == suc pin_epoch

module _ (platform : Platform) where
  unfoldable pub decode_all : List Text → Option (List Bytes)
  decode_all [] = some []
  decode_all (k ∷ ks) = do b ← base64_to_bytes platform k; rest ← decode_all ks; some (b ∷ rest)

  unfoldable pub judge_link : List Bytes → Option OwnKeyLink → KeyChangeEvidence
  judge_link pinned none = no_link
  judge_link pinned (some next) =
      if any (λ k. same_bytes next.old_signing k) pinned then signed_rotation else no_link

  unfoldable pub decode_evidence : Text → List Text → Option (Bytes × List Bytes)
  decode_evidence served_key pinned_keys = do
    current ← base64_to_bytes platform served_key
    pinned ← decode_all pinned_keys
    some (current, pinned)

  -- User, the pin's keys and epoch, the served key, and the served changes.
  unfoldable pub key_change_evidence :
      Text → List Text → ℕ → Text → List WireKeyChange → KeyChangeEvidence
  key_change_evidence user pinned_keys pin_epoch served_key changes =
      elim (decode_evidence served_key pinned_keys) [
        | none ↦ unverified
        | some d ↦ elim (build_own_key_history platform user d.0 changes []) [
          | none ↦ unverified
          | some history ↦ judge_link d.1 (find (λ l. is_next pin_epoch l.epoch) history.links)
        ]
      ]
