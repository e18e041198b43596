-- ===== src/History/Roster.antt =====
-- `rosterEntryId` and `rosterDigest` of key-rotation.ts, and how own-history.ts reads a roster.
use undergroundbb.Base.{
  ℕ, List, [], ◌∷◌, ◌++◌, Option, none, some, Text, Bytes, length, take, ◌==◌, ◌<<◌, if◌then◌else◌,
  ◌>>=◌,
}
use undergroundbb.Platform.{Platform}
use undergroundbb.Wire.Compare.{bytes_equal}
use undergroundbb.Wire.Decimal.{decimal}
use undergroundbb.Wire.Encoding.{length_prefixed_concat, base64_to_bytes}

abbrev pub key_size : ℕ
key_size = 32

abbrev pub signature_size : ℕ
signature_size = 64

abbrev pub roster_entry_size : ℕ
roster_entry_size = 16

-- `[...entries].sort(compareBytes)`, which is stable: an entry goes in front of those that are not
-- less than it.
unfoldable pub insert : Bytes → List Bytes → List Bytes
insert x [] = x ∷ []
insert x (y ∷ ys) = let rest = insert x ys in if y << x then y ∷ rest else x ∷ y ∷ ys

unfoldable pub sort : List Bytes → List Bytes
unfolding insert
sort [] = []
sort (x ∷ xs) = insert x (sort xs)

module _ (platform : Platform) where
  open platform use {utf8, sha256}

  unfoldable pub roster_entry_id : Text → Bytes → Bytes
  roster_entry_id sk signature = take roster_entry_size (sha256 (utf8 sk ++ signature))

  unfoldable pub roster_digest : List Bytes → Bytes
  unfolding sort
  roster_digest entries =
      let sorted = sort entries in
      sha256 (length_prefixed_concat (utf8 (decimal (length sorted)) ∷ sorted))

  -- `decode(b64, size)`
  unfoldable pub decode_sized : ℕ → Text → Option Bytes
  decode_sized size b64 =
      base64_to_bytes platform b64 >>= λ b. if length b == size then some b else none

  unfoldable pub decode_entries : List Text → Option (List Bytes)
  unfolding decode_sized
  decode_entries [] = some []
  decode_entries (e ∷ es) = do
    b ← decode_sized roster_entry_size e
    rest ← decode_entries es
    some (b ∷ rest)

  unfoldable pub decode_roster : Option (List Text) → Bytes → Option (List Bytes)
  unfolding decode_entries
  decode_roster none digest = none
  decode_roster (some roster) digest = decode_entries roster >>= λ entries.
      if bytes_equal (roster_digest entries) digest then some entries else none
