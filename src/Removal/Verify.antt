-- ===== src/Removal/Verify.antt =====
-- removal.ts: the check of a group's removal history. A map is an association list; none stands
-- for a failed check.
use undergroundbb.Base.{
  ℕ, zero, suc, Bool, false, not, List, [], ◌∷◌, Option, none, some, Text, Bytes, codes, ◌===◌,
  ◌==◌, any, if◌then◌else◌, ◌>>=◌, is_some,
}
use undergroundbb.Platform.{Platform}
use undergroundbb.Wire.Encoding.{base64_to_bytes}
use undergroundbb.Wire.Signature.{SigningContext, verify}
use undergroundbb.Grant.Records.{Number, safe_natural}
use undergroundbb.Payloads.{rotation_start_payload, rotation_rekey_payload}

pub record RemovalLink : Type 0 where
  pub generation : Number
  pub remover_user_id : Option Text
  pub removed_user_id : Option Text
  pub start_signature : Option Text
  pub rekeyed_user_id : Option Text
  pub rekey_reason : Option Text

pub record VerifyRemovalsInput : Type 0 where
  pub group_id : Text
  pub current_generation : Number
  pub links : List RemovalLink
  pub keys_for : Text → Option (List Bytes)

-- `[...new Set(…)]`: each name once, in the order of their first places.
unfoldable pub add_name : Text → List Text → List Text
add_name name [] = name ∷ []
add_name name (n ∷ ns) = let rest = add_name name ns in if n === name then n ∷ ns else n ∷ rest

unfoldable pub removers_onto : List Text → List RemovalLink → List Text
removers_onto names [] = names
removers_onto names (l ∷ ls) = elim l.remover_user_id [
  | none ↦ removers_onto names ls
  | some remover ↦ removers_onto (add_name remover names) ls
]

unfoldable pub removers_of : List RemovalLink → List Text
removers_of links = removers_onto [] links

-- `byGeneration`
abbrev pub ByGeneration : Type 0
ByGeneration = List (ℕ × RemovalLink)

unfoldable pub link_at : ℕ → ByGeneration → Option RemovalLink
link_at n [] = none
link_at n (e ∷ es) = let rest = link_at n es in if e.0 == n then some e.1 else rest

-- `removedAt`
abbrev pub RemovedAt : Type 0
RemovedAt = List (Text × ℕ)

unfoldable pub removed_at : Text → RemovedAt → Option ℕ
removed_at user [] = none
removed_at user (e ∷ es) = let rest = removed_at user es in if e.0 === user then some e.1 else rest

unfoldable pub set_removed : Text → ℕ → RemovedAt → RemovedAt
set_removed user n [] = (user, n) ∷ []
set_removed user n (e ∷ es) =
    let rest = set_removed user n es in if e.0 === user then (user, n) ∷ es else e ∷ rest

-- The loop that fills `byGeneration`.
unfoldable pub index_links : ByGeneration → List RemovalLink → Option ByGeneration
index_links index [] = some index
index_links index (l ∷ ls) = elim (safe_natural l.generation) [
  | none ↦ none
  | some n ↦ if is_some (link_at n index) then none else index_links ((n, l) ∷ index) ls
]

unfoldable pub rekey_kind_ok : Option Text → Text → Text → Bool
rekey_kind_ok none signer rekeyed = false
rekey_kind_ok (some reason) signer rekeyed =
    if reason === codes "self"
    then rekeyed === signer
    else if reason === codes "approval"
    then not (rekeyed === signer)
    else false

unfoldable pub record_removal : Bool → ℕ → Text → RemovedAt → Option RemovedAt
record_removal verified generation removed removed_so_far =
    if verified then some (set_removed removed generation removed_so_far) else none

module _ (platform : Platform) (input : VerifyRemovalsInput) where
  -- `keys.some((k) => verify(k, context, payload, signature))`, false where the signature or the keys
  -- cannot be read.
  unfoldable pub signed_by : Text → Text → SigningContext → Bytes → Bool
  signed_by signer start_signature context payload =
      elim (base64_to_bytes platform start_signature) [
        | none ↦ false
        | some signature ↦ elim (input.keys_for signer) [
          | none ↦ false
          | some keys ↦ any (λ k. verify platform k context payload signature) keys
        ]
      ]

  -- The generation that the link made, and what it was for.
  unfoldable pub rekey_signed : ℕ → Text → Text → Option Text → Text → Bool
  rekey_signed generation remover rekeyed none signature = false
  rekey_signed generation remover rekeyed (some reason) signature =
      signed_by remover signature SigningContext.rotation_rekey
        (rotation_rekey_payload platform input.group_id remover rekeyed generation reason)

  unfoldable pub verify_rekey_link : ℕ → RemovalLink → Text → Bool
  verify_rekey_link generation link rekeyed = elim link.remover_user_id [
    | none ↦ false
    | some remover ↦ elim link.start_signature [
      | none ↦ false
      | some signature ↦
          if is_some link.removed_user_id
          then false
          else if not (rekey_kind_ok link.rekey_reason remover rekeyed)
          then false
          else rekey_signed generation remover rekeyed link.rekey_reason signature
    ]
  ]

  unfoldable pub removal_signed : ℕ → Text → Text → Text → Bool
  removal_signed generation remover removed signature =
      signed_by remover signature SigningContext.rotation_start
        (rotation_start_payload platform input.group_id remover removed generation)

  unfoldable pub check_removal : ℕ → RemovalLink → RemovedAt → Option RemovedAt
  check_removal generation link removed_so_far = do
    remover ← link.remover_user_id
    removed ← link.removed_user_id
    signature ← link.start_signature
    record_removal (removal_signed generation remover removed signature) generation removed
        removed_so_far

  unfoldable pub check_link : ℕ → RemovalLink → RemovedAt → Option RemovedAt
  check_link generation link removed_so_far = elim link.rekeyed_user_id [
    | none ↦ check_removal generation link removed_so_far
    | some rekeyed ↦ if verify_rekey_link generation link rekeyed then some removed_so_far else none
  ]

  -- One turn of the loop over the generations.
  unfoldable pub check_generation : ByGeneration → ℕ → RemovedAt → Option RemovedAt
  check_generation index n removed_so_far = elim (link_at n index) [
    | none ↦ none
    | some link ↦ check_link (suc n) link removed_so_far
  ]

  -- `for (let n = …; n < currentGeneration; n++)`, by how many generations are left.
  unfoldable pub check_from : ByGeneration → ℕ → ℕ → RemovedAt → Option RemovedAt
  check_from index n zero removed_so_far = some removed_so_far
  check_from index n (suc left) removed_so_far = elim (check_generation index n removed_so_far) [
    | none ↦ none
    | some removed ↦ check_from index (suc n) left removed
  ]

  unfoldable pub verify_removals : Option RemovedAt
  verify_removals = elim (safe_natural input.current_generation) [
    | none ↦ none
    | some current ↦ elim (index_links [] input.links) [
      | none ↦ none
      | some index ↦ check_from index 0 current []
    ]
  ]
