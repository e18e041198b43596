-- ===== src/Wire/Encoding.antt =====
-- payload.ts: fields written one after another, each behind its 4-byte big-endian length.
use undergroundbb.Base.{
  ◌>>=◌, ℕ, ◌/◌, ◌%◌, List, [], ◌∷◌, ◌++◌, map, Option, none, some, Text, Bytes, length,
}
use undergroundbb.Platform.{Platform}
use undergroundbb.Wire.Decimal.{decimal}

-- `view.setUint32(0, n, false)`: `n` modulo 2 ^ 32, most significant byte first.
unfoldable pub uint32_be : ℕ → Bytes
uint32_be n = n / 16777216 % 256 ∷ n / 65536 % 256 ∷ n / 256 % 256 ∷ n % 256 ∷ []

-- `appendLengthPrefixed`, and the body of the loop in `lengthPrefixedConcat`: the bytes written so
-- far are the part of `out` before `offset`.
unfoldable pub append_length_prefixed : Bytes → Bytes → Bytes
unfolding uint32_be
append_length_prefixed out field = out ++ (uint32_be (length field) ++ field)

unfoldable pub concat_onto : Bytes → List Bytes → Bytes
concat_onto out [] = out
concat_onto out (field ∷ fields) = concat_onto (append_length_prefixed out field) fields

unfoldable pub length_prefixed_concat : List Bytes → Bytes
unfolding concat_onto append_length_prefixed
length_prefixed_concat fields = concat_onto [] fields

module _ (platform : Platform) where
  open platform use {utf8, sha256, atob}

  -- base64.ts: `atob` throws on malformed text, and `out[i] = …` keeps the low byte of each code.
  unfoldable pub base64_to_bytes : Text → Option Bytes
  base64_to_bytes b64 = do binary ← atob b64; some (map (λ c. c % 256) binary)

  -- `decode` of grant-chain.ts: absent and empty texts are no bytes either.
  unfoldable pub decode : Option Text → Option Bytes
  unfolding base64_to_bytes
  decode none = none
  decode (some []) = none
  decode (some (c ∷ s)) = base64_to_bytes (c ∷ s)

  -- The payload that the signature of a post or a comment covers.
  unfoldable pub signed_payload : Text → Text → Text → ℕ → Text → Bytes → Bytes
  signed_payload author_uuid group_id sort_key generation utc_day ciphertext =
      let ciphertext_hash = sha256 ciphertext in
      length_prefixed_concat (
        utf8 author_uuid
        ∷ utf8 group_id
        ∷ utf8 sort_key
        ∷ utf8 (decimal generation)
        ∷ utf8 utc_day
        ∷ ciphertext_hash
        ∷ [])
