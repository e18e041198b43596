-- ===== src/Checks/ItemsSound.antt =====
-- What a valid signature of a post or a comment rests on.
use undergroundbb.History.Records.{OwnKeyHistory}
use undergroundbb.Base.{
  ◌≢◌, ◌≡◌, refl, ◌⊎◌, inl, inr, true, false, [], ◌∷◌, ◌++◌, Option, none, some, arith, Text, Bytes,
  codes, Bool-cases, Option-cases, ◌<<◌,
}
use undergroundbb.Platform.{Platform}
use undergroundbb.Wire.Signature.{SigningContext}
use undergroundbb.History.Build.{build_own_key_history}
use undergroundbb.Checks.Items.{
  AuthorKeys, SignedItem, valid, sort_key_day, is_day_text, signed_under, decode_item, item_payload,
  judge_item, check_signed_item, check_post_signature, check_comment_signature,
}
use undergroundbb.Checks.Signed.{IsSignedBy, signed_under-IsSignedBy}

-- The item's author signed it on the day.
pub record IsAuthentic (platform : Platform) (context : SigningContext) (day : Text)
    (item : SignedItem) (author : AuthorKeys) : Type 0 where
  pub signature : Bytes
  pub ciphertext : Bytes
  pub current : Bytes
  pub decoded : decode_item platform item author ≡ some (signature, ciphertext, current)
  pub signed :
      IsSignedBy platform item.author_user_id author.key_changes current day context
        (item_payload platform item day ciphertext)
        signature

authentic :
    (platform : Platform) (context : SigningContext) (day : Text) (item : SignedItem)
    (author : AuthorKeys) (signature ciphertext current : Bytes) (history : OwnKeyHistory)
    → decode_item platform item author ≡ some (signature, ciphertext, current)
    → build_own_key_history platform item.author_user_id current author.key_changes []
      ≡ some history
    → signed_under platform history current day context
        (item_payload platform item day ciphertext)
        signature
      ≡ true
    → IsAuthentic platform context day item author
authentic platform context day item author signature ciphertext current history decoded built
      signed =
    record {
      signature = signature;
      ciphertext = ciphertext;
      current = current;
      decoded = decoded;
      signed =
          signed_under-IsSignedBy platform item.author_user_id current author.key_changes history
            day context (item_payload platform item day ciphertext) signature built signed;
    }

check_author_sound :
    (platform : Platform) (context : SigningContext) (day : Text) (item : SignedItem)
    (author : AuthorKeys)
    → check_signed_item platform context day item (some author) ≡ valid
    → IsAuthentic platform context day item author
unfolding check_signed_item judge_item
check_author_sound platform context day item author e =
    elim (Option-cases (decode_item platform item author)) [
      | inl malformed ↦ absurd (ground (arith, malformed, e))
      | inr (d, decoded) ↦
          elim (Option-cases
            (build_own_key_history platform item.author_user_id d.2 author.key_changes [])) [
              | inl broken ↦ absurd (ground (arith, decoded, broken, e))
              | inr (history, built) ↦
                  elim (Bool-cases (
                    signed_under platform history d.2 day context
                      (item_payload platform item day d.1) d.0)) [
                        | inr unsigned ↦ absurd (ground (arith, decoded, built, unsigned, e))
                        | inl signed ↦
                            authentic platform context day item author d.0 d.1 d.2 history decoded
                              built signed
                      ]
            ]
    ]

unknown_author_invalid :
    (platform : Platform) (context : SigningContext) (day : Text) (item : SignedItem)
    → check_signed_item platform context day item none ≢ valid
unfolding check_signed_item
unknown_author_invalid platform context day item e = cc e

check_signed_item_sound :
    (platform : Platform) (context : SigningContext) (day : Text) (item : SignedItem)
    (keys : Option AuthorKeys)
    → check_signed_item platform context day item keys ≡ valid
    → (author : AuthorKeys) × (keys ≡ some author) × IsAuthentic platform context day item author
check_signed_item_sound platform context day item none e =
    absurd (unknown_author_invalid platform context day item e)
check_signed_item_sound platform context day item (some author) e =
    (author, refl, check_author_sound platform context day item author e)

-- The day a post's signature is for: the day it was filed, or a well-formed day that is not earlier.
pub record IsSigningDay (item : SignedItem) (signed_day : Option Text) (day : Text) : Type 0 where
  pub filed : Text
  pub on_record : sort_key_day item.sort_key ≡ some filed
  pub is_day :
      ((signed_day ≡ none) × (day ≡ filed)) ⊎ ((signed_day ≡ some day) × (is_day_text day ≡ true))
  pub not_before : (day << filed) ≡ false

-- `<<` is irreflexive.
<<-irreflexive : (s : Text) → (s << s) ≡ false
unfolding ◌<<◌
<<-irreflexive [] = refl
<<-irreflexive (c ∷ s) = ground (arith, <<-irreflexive s)

-- A post's signature is valid only if its sort key is dated, the edit's day, where there is one, is
-- well formed and not before that date, and a key that its author may have used on that day signed
-- the author, the group, the sort key, the generation, the day and the ciphertext as a post. The
-- author may have used it by the verified chain that their served rotations form, each of them a
-- link and no others, and that ends at their served key.
pub check_post_signature_sound :
    (platform : Platform) (item : SignedItem) (signed_day : Option Text) (keys : Option AuthorKeys)
    → check_post_signature platform item signed_day keys ≡ valid
    → (author : AuthorKeys) × (day : Text) × (keys ≡ some author)
      × IsSigningDay item signed_day day
      × IsAuthentic platform SigningContext.post day item author
unfolding check_post_signature
check_post_signature_sound platform item none keys e =
    elim (Option-cases (sort_key_day item.sort_key)) [
      | inl malformed ↦ absurd (ground (arith, malformed, e))
      | inr (filed, dated) ↦
          let (author, known, authentic) =
            check_signed_item_sound platform SigningContext.post filed item keys
              (ground (arith, dated, e)) in
          (
            author,
            filed,
            known,
            record {
              filed = filed;
              on_record = dated;
              is_day = inl (refl, refl);
              not_before = <<-irreflexive filed;
            },
            authentic,
          )
    ]
check_post_signature_sound platform item (some day) keys e =
    elim (Option-cases (sort_key_day item.sort_key)) [
      | inl malformed ↦ absurd (ground (arith, malformed, e))
      | inr (filed, dated) ↦
          let facts : (is_day_text day ≡ true)
              × ((day << filed) ≡ false)
              × (check_signed_item platform SigningContext.post day item keys ≡ valid) =
            ground (arith, dated, e) in
          let (author, known, authentic) =
            check_signed_item_sound platform SigningContext.post day item keys facts.2 in
          (
            author,
            day,
            known,
            record {
              filed = filed;
              on_record = dated;
              is_day = inr (refl, facts.0);
              not_before = facts.1;
            },
            authentic,
          )
    ]

-- A comment's signature is valid only if its signed day is well formed and a key that its author
-- may have used on that day signed the author, the group, the comment's path, the generation, the
-- day and the ciphertext as a comment. The author may have used it by the verified chain that their
-- served rotations form, each of them a link and no others, and that ends at their served key.
pub check_comment_signature_sound :
    (platform : Platform) (path : Text) (item : SignedItem) (signed_day : Text)
    (keys : Option AuthorKeys)
    → check_comment_signature platform path item signed_day keys ≡ valid
    → (is_day_text signed_day ≡ true)
      × (author : AuthorKeys) × (keys ≡ some author)
      × IsAuthentic platform SigningContext.comment signed_day
          (record item { sort_key = codes "CMT#" ++ path })
          author
unfolding check_comment_signature
check_comment_signature_sound platform path item signed_day keys e =
    elim (Bool-cases (is_day_text signed_day)) [
      | inr malformed ↦ absurd (ground (arith, malformed, e))
      | inl dated ↦
          let (author, known, authentic) =
            check_signed_item_sound platform SigningContext.comment signed_day
              (record item { sort_key = codes "CMT#" ++ path }) keys (ground (arith, dated, e)) in
          (dated, author, known, authentic)
    ]
