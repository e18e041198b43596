-- ===== src/Tests/KeyBundle.antt =====
-- A key bundle, and what does not decode.
use undergroundbb.Base.{◌≡◌, refl, ◌↔◌, [], ◌∷◌, ◌++◌, none, some, Bytes}
use undergroundbb.Wire.Encoding.{uint32_be}
use undergroundbb.KeyBundle.Layout.{
  KeyBundle, bundle, unsupported_key_bundle_version, malformed_key_bundle, append_field,
  encode_key_bundle, get_uint32, read_length_prefixed, decode_wrapping_key, decode_fields,
  decode_key_bundle,
}
use undergroundbb.KeyBundle.Exact.{decode_key_bundle_iff}
use undergroundbb.Tests.Toy.{alice_key, bob_key}

program : Unit {0}
unfolding uint32_be append_field encode_key_bundle get_uint32 read_length_prefixed
    decode_wrapping_key decode_fields decode_key_bundle
program = tt

abbrev keys : KeyBundle
keys = record { signing_seed = alice_key; wrapping_private_key = bob_key }

abbrev blob : Bytes
blob = 1 ∷ 0 ∷ 0 ∷ 0 ∷ 32 ∷ (alice_key ++ (0 ∷ 0 ∷ 0 ∷ 32 ∷ bob_key))

encodes : encode_key_bundle keys ≡ some blob
unfolding program
encodes = refl

-- A byte too many, another version, and a field of another length.
too_long : decode_key_bundle (blob ++ (0 ∷ [])) ≡ malformed_key_bundle
unfolding program
too_long = refl

version_two : decode_key_bundle (2 ∷ []) ≡ unsupported_key_bundle_version
unfolding program
version_two = refl

short_seed : encode_key_bundle (record keys { signing_seed = [] }) ≡ none
unfolding program
short_seed = refl

decode_key_bundle_iff_example :
    (decode_key_bundle blob ≡ bundle keys) ↔ (encode_key_bundle keys ≡ some blob)
decode_key_bundle_iff_example = decode_key_bundle_iff blob keys
