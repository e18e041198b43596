-- ===== src/Checks/Items.antt =====
-- post-check.ts and comment-check.ts: the signature and the times of a stored post or comment. A
-- generation is a natural number.
use undergroundbb.Base.{
  ℕ, Bool, true, false, not, ◌&&◌, ◌||◌, List, [], ◌++◌, Option, none, some, Text, Bytes, codes,
  ◌===◌, ◌<<◌, any, take, if◌then◌else◌, ◌>>=◌, is_some,
}
use undergroundbb.Platform.{Platform}
use undergroundbb.Wire.Encoding.{base64_to_bytes, signed_payload}
use undergroundbb.Wire.Signature.{SigningContext, verify}
use undergroundbb.Grant.SortKey.{after, day_prefix, random_suffix, at_end, exactly, is_hex_or_dash}
use undergroundbb.History.Records.{WireKeyChange, OwnKeyHistory}
use undergroundbb.History.Build.{build_own_key_history}
use undergroundbb.History.Query.{signing_keys_on}

pub record AuthorKeys : Type 0 where
  pub signing_public_key : Text
  pub key_changes : List WireKeyChange

pub data Unchecked : Type 0 where
  keys_not_read malformed history_unverified : Unchecked

pub data SignatureVerdict : Type 0 where
  valid invalid : SignatureVerdict
  unchecked : Unchecked → SignatureVerdict

-- `^POST#(\d{4}-\d{2}-\d{2})#[0-9a-f]{16}$`
unfoldable pub sort_key_day : Text → Option Text
sort_key_day sort_key = do
  rest ← after (codes "POST#") sort_key
  day ← day_prefix rest
  end ← random_suffix day.1
  some day.0

unfoldable pub post_id_of : Text → Text → Option Text
post_id_of group_id sort_key = elim (sort_key_day sort_key) [
  | none ↦ none
  | some day ↦ after (codes "POST#") sort_key >>= λ rest. some (group_id ++ (codes "#" ++ rest))
]

-- `^([0-9a-f-]{36})#\d{4}-\d{2}-\d{2}#[0-9a-f]{16}$`
unfoldable pub group_of_post_id : Text → Option Text
group_of_post_id post_id = do
  group ← exactly is_hex_or_dash 36 post_id
  rest ← after (codes "#") group.1
  day ← day_prefix rest
  end ← random_suffix day.1
  some group.0

-- `^\d{4}-\d{2}-\d{2}$`
unfoldable pub is_day_text : Text → Bool
is_day_text s = is_some (day_prefix s >>= λ d. at_end d.1)

-- `x === day` for a day that may be undefined.
abbrev pub is_on : Text → Option Text → Bool
is_on at none = false
is_on at (some day) = at === day

-- `signedDay ?? …`
abbrev pub or_else : Option Text → Option Text → Option Text
or_else none other = other
or_else (some day) other = some day

unfoldable pub at_on_sort_key_day : Text → Text → Bool
at_on_sort_key_day sort_key at = is_on (take 10 at) (sort_key_day sort_key)

unfoldable pub post_time_suspect : Text → Option Text → Text → Option Text → Bool
post_time_suspect sort_key signed_day at edited_at =
    if not (at_on_sort_key_day sort_key at) then true else elim edited_at [
      | none ↦ false
      | some edited ↦
          not (is_on (take 10 edited) (or_else signed_day (sort_key_day sort_key))) || edited << at
    ]

unfoldable pub at_on_signed_day : Text → Text → Bool
at_on_signed_day signed_day at = is_day_text signed_day && take 10 at === signed_day

unfoldable pub comment_time_suspect : Text → Text → Option Text → Bool
comment_time_suspect signed_day at edited_at = elim edited_at [
  | none ↦ not (at_on_signed_day signed_day at)
  | some edited ↦ not (at_on_signed_day signed_day edited) || edited << at
]

-- What a signature is over, apart from the day and the context.
pub record SignedItem : Type 0 where
  pub group_id : Text
  pub author_user_id : Text
  pub sort_key : Text
  pub generation : ℕ
  pub ciphertext : Text
  pub signature : Text

module _ (platform : Platform) where
  -- `signingKeysOn(history, current, day).some((k) => verify(k, context, payload, signature))`
  unfoldable pub signed_under : OwnKeyHistory → Bytes → Text → SigningContext → Bytes → Bytes → Bool
  signed_under history current day context payload signature =
      any (λ k. verify platform k context payload signature) (signing_keys_on history current day)

  -- The item's and the author's fields, decoded: signature, ciphertext, current key.
  unfoldable pub decode_item : SignedItem → AuthorKeys → Option (Bytes × Bytes × Bytes)
  decode_item item author = do
    signature ← base64_to_bytes platform item.signature
    ciphertext ← base64_to_bytes platform item.ciphertext
    current ← base64_to_bytes platform author.signing_public_key
    some (signature, ciphertext, current)

  unfoldable pub item_payload : SignedItem → Text → Bytes → Bytes
  item_payload item day ciphertext =
      signed_payload platform item.author_user_id item.group_id item.sort_key item.generation day
        ciphertext

  -- From the author's verified history on.
  unfoldable pub judge_item :
      SigningContext → Text → SignedItem → Bytes → Bytes → Bytes → OwnKeyHistory → SignatureVerdict
  judge_item context day item signature ciphertext current history =
      if signed_under history current day context (item_payload item day ciphertext) signature
      then valid
      else invalid

  unfoldable pub check_signed_item :
      SigningContext → Text → SignedItem → Option AuthorKeys → SignatureVerdict
  check_signed_item context day item none = unchecked keys_not_read
  check_signed_item context day item (some author) = elim (decode_item item author) [
    | none ↦ unchecked malformed
    | some d ↦ elim (build_own_key_history platform item.author_user_id d.2 author.key_changes []) [
      | none ↦ unchecked history_unverified
      | some history ↦ judge_item context day item d.0 d.1 d.2 history
    ]
  ]

  -- `signedDay` is present only on an edited post.
  unfoldable pub check_post_signature :
      SignedItem → Option Text → Option AuthorKeys → SignatureVerdict
  check_post_signature item signed_day author = elim (sort_key_day item.sort_key) [
    | none ↦ invalid
    | some filed ↦ elim signed_day [
      | none ↦ check_signed_item SigningContext.post filed item author
      | some day ↦
          if not (is_day_text day)
          then invalid
          else if day << filed
          then invalid
          else check_signed_item SigningContext.post day item author
    ]
  ]

  -- The item's sort key is `CMT#` and the comment's path.
  unfoldable pub check_comment_signature :
      Text → SignedItem → Text → Option AuthorKeys → SignatureVerdict
  check_comment_signature path item signed_day author =
      if not (is_day_text signed_day)
      then invalid
      else check_signed_item SigningContext.comment signed_day
          (record item { sort_key = codes "CMT#" ++ path }) author
