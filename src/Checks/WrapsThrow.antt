-- ===== src/Checks/WrapsThrow.antt =====
-- When checking a wrap record throws.
use undergroundbb.Base.{◌≡◌, ◌≢◌, ◌⊎◌, inl, inr, [], Option, none, some, arith, Text, Option-cases}
use undergroundbb.Platform.{Platform}
use undergroundbb.Grant.Records.{Number}
use undergroundbb.History.Build.{build_own_key_history}
use undergroundbb.Payloads.{safe_text, wrap_record_payload}
use undergroundbb.Checks.Items.{AuthorKeys}
use undergroundbb.Checks.Wraps.{
  WireWrapRecord, WrapInput, decode_wrap, wrap_payload, check_wrapper, check_wrap_record,
}
use undergroundbb.Checks.WrapsSound.{check_named_cases}

check_wrapper_returns :
    (platform : Platform) (input : WrapInput) (r : WireWrapRecord) (epoch : Number)
    (wrapper : Option AuthorKeys) (g n : Text)
    → safe_text input.generation ≡ some g
    → safe_text epoch ≡ some n
    → check_wrapper platform input r epoch wrapper ≢ none
unfolding check_wrapper wrap_payload wrap_record_payload
check_wrapper_returns platform input r epoch none g n g_text n_text e = cc
check_wrapper_returns platform input r epoch (some wrapper) g n g_text n_text e =
    elim (Option-cases (decode_wrap platform input r wrapper)) [
      | inl malformed ↦ ground (arith, malformed, e)
      | inr (d, decoded) ↦
          elim (Option-cases
            (build_own_key_history platform r.wrapper_user_id d.1 wrapper.key_changes [])) [
              | inl broken ↦ ground (arith, decoded, broken, e)
              | inr (history, built) ↦ ground (arith, decoded, built, g_text, n_text, e)
            ]
    ]

-- Checking a wrap record throws only for a record at a known epoch whose generation or epoch is not a
-- safe integer.
pub check_wrap_record_throws :
    (platform : Platform) (input : WrapInput)
    → check_wrap_record platform input ≡ none
    → (epoch : Number) × (input.wrap_epoch ≡ some epoch)
      × ((safe_text input.generation ≡ none) ⊎ (safe_text epoch ≡ none))
unfolding check_wrap_record
check_wrap_record_throws platform input e = elim (Option-cases input.wrap_record) [
  | inl absent ↦ absurd (ground (arith, absent, e))
  | inr (r, stored) ↦ elim (Option-cases input.wrap_epoch) [
    | inl unread ↦ absurd (ground (arith, stored, unread, e))
    | inr (epoch, at) ↦ elim (Option-cases (safe_text input.generation)) [
      | inl unsafe ↦ (epoch, at, inl unsafe)
      | inr (g, g_text) ↦ elim (Option-cases (safe_text epoch)) [
        | inl unsafe ↦ (epoch, at, inr unsafe)
        | inr (n, n_text) ↦ elim (check_named_cases platform input r epoch) [
          | inl bad ↦ absurd (ground (arith, bad, e, stored, at))
          | inr (named, day, same) ↦ absurd (
              check_wrapper_returns platform input r epoch input.wrapper g n g_text n_text
                (ground (arith, same, e, stored, at)))
        ]
      ]
    ]
  ]
]
