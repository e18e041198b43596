-- ===== src/Grant/Records.antt =====
-- The rows that the server serves, the verifier's input and its verdicts (grant-chain.ts).
use undergroundbb.Base.{ℕ, Bool, List, Option, none, some, Text, leb, if◌then◌else◌}

-- A JSON number: an integer that is not negative, -(n + 1), or one that is no integer.
pub data Number : Type 0 where
  natural negative : ℕ → Number
  fraction : Number

abbrev pub max_safe_integer : ℕ
max_safe_integer = 9007199254740991

-- The number, if `Number.isSafeInteger(n) && n >= 0`.
unfoldable pub safe_natural : Number → Option ℕ
safe_natural (natural n) = if leb n max_safe_integer then some n else none
safe_natural (negative n) = none
safe_natural fraction = none

pub record GrantRecord : Type 0 where
  pub sort_key : Text
  pub subject_user_id : Text
  pub granted_role : Text
  pub grantor_user_id : Text
  pub grantor_signing_public_key : Option Text
  pub grantor_grant_ref : Option Text
  pub via_designation : Option Text
  pub signature : Text

pub record DesignationRecord : Type 0 where
  pub sort_key : Text
  pub admin_user_id : Text
  pub successor_user_id : Option Text
  pub period_days : Number
  pub admin_grant_ref : Text
  pub signature : Text

pub record GrantAnchor : Type 0 where
  pub creator_user_id : Text
  pub creator_signing_public_key : Text
  pub trust_anchor_signature : Text
  pub root_grant_sort_key : Text

pub record SupersededKey : Type 0 where
  pub public_key : Text
  pub from : Text
  pub until : Option Text

pub record UserKeyHistory : Type 0 where
  pub signing_public_key : Text
  pub superseded_signing_keys : List SupersededKey

pub record PinnedAnchor : Type 0 where
  pub creator_user_id : Text
  pub creator_signing_public_key : Text

pub record GrantChainInput : Type 0 where
  pub group_id : Text
  pub anchor : GrantAnchor
  pub pinned_anchor : Option PinnedAnchor
  pub grants : List GrantRecord
  pub key_histories : Text → Option UserKeyHistory
  pub designations : Option (List DesignationRecord)
  pub now : Option ℕ

-- Whose grants a refusal speaks of.
pub data Party : Type 0 where
  creator grantor admin signer successor : Party

-- The texts of the refusals, one constructor for each; those that differ only in the party have one
-- constructor between them.
pub data Reason : Type 0 where
  duplicate_sort_key malformed_sort_key subject_mismatch unknown_role malformed_signature : Reason
  pin_mismatch anchor_invalid root_not_self_signed root_not_admin root_has_predecessor : Reason
  anchor_key_not_held root_signature_invalid missing_ref non_root_self_grant : Reason
  role_changed no_grant ambiguous wrong_ref wrong_role unverified no_history : Party → Reason
  signature_invalid : Party → Reason
  duplicate_designation malformed_designation_key designation_admin_mismatch : Reason
  period_out_of_range malformed_designation_signature no_admin_grant_ref : Reason
  claim_not_admin designation_reused designation_not_served : Reason
  designation_unverified : Reason → Reason
  names_someone_else names_different_admin cites_different_grant : Reason
  period_not_elapsed claim_in_future admin_designated_again admin_role_changed : Reason

pub data GrantVerdict : Type 0 where
  valid : GrantVerdict
  reject : Reason → GrantVerdict

abbrev pub is_valid : GrantVerdict → Bool
is_valid valid = Bool.true
is_valid (reject why) = Bool.false
