-- ===== src/KeyBundle/Layout.antt =====
-- keybundle.ts: version 1 of the key bundle. An offset counts the bytes from the start of the blob.
use undergroundbb.Base.{
  ◌^◌, ℕ, ◌+◌, ◌*◌, [], ◌∷◌, ◌++◌, Option, none, some, Bytes, ◌==◌, ltb, not, ◌||◌, length, take,
  drop, if◌then◌else◌,
}
use undergroundbb.Wire.Encoding.{uint32_be}

pub record KeyBundle : Type 0 where
  pub signing_seed : Bytes
  pub wrapping_private_key : Bytes

pub data DecodedBundle : Type 0 where
  bundle : KeyBundle → DecodedBundle
  unsupported_key_bundle_version malformed_key_bundle : DecodedBundle

abbrev pub signing_seed_size : ℕ
signing_seed_size = 32

abbrev pub wrapping_key_size : ℕ
wrapping_key_size = 32

unfoldable pub append_field : Bytes → Bytes → Bytes
append_field out field = out ++ (uint32_be (length field) ++ field)

-- None where it throws `MalformedKeyBundleError`.
unfoldable pub encode_key_bundle : KeyBundle → Option Bytes
encode_key_bundle b =
    if not (length b.signing_seed == signing_seed_size)
      || not (length b.wrapping_private_key == wrapping_key_size)
    then none
    else some (append_field (append_field (1 ∷ []) b.signing_seed) b.wrapping_private_key)

-- `getUint32(0, false)` of the bytes from the offset on, of which there are four.
unfoldable pub get_uint32 : Bytes → ℕ
get_uint32 (a ∷ b ∷ c ∷ d ∷ rest) = a * 2 ^ 24 + b * 2 ^ 16 + c * 2 ^ 8 + d
get_uint32 bytes = 0

-- The field and where it ends; none where it throws `MalformedKeyBundleError`.
unfoldable pub read_length_prefixed : Bytes → ℕ → Option (Bytes × ℕ)
read_length_prefixed blob offset =
    let n = get_uint32 (drop offset blob) in
    if ltb (length blob) (offset + 4)
    then none
    else if ltb (length blob) (offset + 4 + n)
    then none
    else some (take n (drop (offset + 4) blob), offset + 4 + n)

unfoldable pub decode_wrapping_key : Bytes → Bytes → ℕ → DecodedBundle
decode_wrapping_key blob seed offset = elim (read_length_prefixed blob offset) [
  | none ↦ malformed_key_bundle
  | some wrapping ↦
      if not (length wrapping.0 == wrapping_key_size)
      then malformed_key_bundle
      else if not (wrapping.1 == length blob)
      then malformed_key_bundle
      else bundle (record { signing_seed = seed; wrapping_private_key = wrapping.0 })
]

unfoldable pub decode_fields : Bytes → DecodedBundle
decode_fields blob = elim (read_length_prefixed blob 1) [
  | none ↦ malformed_key_bundle
  | some seed ↦
      if not (length seed.0 == signing_seed_size)
      then malformed_key_bundle
      else decode_wrapping_key blob seed.0 seed.1
]

unfoldable pub decode_key_bundle : Bytes → DecodedBundle
decode_key_bundle [] = malformed_key_bundle
decode_key_bundle (version ∷ rest) =
    if not (version == 1) then unsupported_key_bundle_version else decode_fields (version ∷ rest)
