-- ===== src/Grant/Rules.antt =====
-- The rules of the role chain (the header of grant-chain.ts), as a relation that does not follow the
-- verifier's control flow: what it takes for a grant to be justified.
use undergroundbb.Base.{
  ℕ, ◌+◌, ◌*◌, ◌≤◌, ◌<◌, ◌≡◌, ◌≢◌, ◌⊎◌, true, false, List, [], some, Text, Bytes, codes, In,
}
use undergroundbb.Platform.{Platform}
use undergroundbb.Wire.Encoding.{decode}
use undergroundbb.Wire.Signature.{SigningContext, verify}
use undergroundbb.Payloads.{successor_designation_payload, successor_claim_payload}
use undergroundbb.Grant.Records.{GrantRecord, DesignationRecord, UserKeyHistory, GrantChainInput}
use undergroundbb.Grant.SortKey.{ParsedKey, parse_sort_key, parse_designation_key}
use undergroundbb.Grant.Keys.{day_ms, keys_on_day}
use undergroundbb.Grant.Scan.{grants_to}
use undergroundbb.Grant.Verify.{
  duplicated_designation, claim_day_skew_tolerance_ms, or_empty, days, is_self_demotion, duplicated,
  served_designations, pin_mismatch, anchor_key, anchor_valid, grant_payload,
}

module _ (platform : Platform) (input : GrantChainInput) where
  -- A grant's sort key is well formed and dated on that day.
  pub record IsDated (g : GrantRecord) (day : ℕ) : Type 0 where
    pub key : ParsedKey
    pub parses : parse_sort_key platform g.sort_key ≡ some key
    pub is_day : key.day ≡ day

  -- The row is the only one with its sort key, is dated for its own subject, and has a signature.
  pub record IsRow (g : GrantRecord) (day : ℕ) (sig : Bytes) : Type 0 where
    pub unique : duplicated g.sort_key input.grants ≡ false
    pub dated : IsDated g day
    pub own_subject : dated.key.subject ≡ g.subject_user_id
    pub signature : decode platform (some g.signature) ≡ some sig

  -- Some key that the user held on the day signed the payload under the context.
  pub record IsSigned (user : Text) (day : ℕ) (context : SigningContext) (payload sig : Bytes)
      : Type 0 where
    pub history : UserKeyHistory
    pub known : input.key_histories user ≡ some history
    pub key : Bytes
    pub held : In key (keys_on_day platform history day)
    pub verifies : verify platform key context payload sig ≡ true

  -- The one latest grant of a list that is dated before the day.
  pub record IsCurrent (gs : List GrantRecord) (day : ℕ) (current : GrantRecord) : Type 0 where
    pub listed : In current gs
    pub own_day : ℕ
    pub dated : IsDated current own_day
    pub before : own_day < day
    pub latest :
        (o : GrantRecord) (d : ℕ)
        → In o gs
        → IsDated o d
        → d < day
        → o.sort_key ≢ current.sort_key
        → d < own_day

  pub record IsRoot (g : GrantRecord) : Type 0 where
    pub is_root : g.sort_key ≡ input.anchor.root_grant_sort_key
    pub no_pin_mismatch : pin_mismatch platform input ≡ false
    pub anchored : anchor_valid platform input ≡ true
    pub by_creator : g.grantor_user_id ≡ input.anchor.creator_user_id
    pub to_creator : g.subject_user_id ≡ input.anchor.creator_user_id
    pub admin : g.granted_role ≡ codes "admin"
    pub no_predecessor : or_empty g.grantor_grant_ref ≡ []
    pub day : ℕ
    pub sig : Bytes
    pub row : IsRow g day sig
    pub key : Bytes
    pub is_anchor_key : anchor_key platform input ≡ some key
    pub history : UserKeyHistory
    pub known : input.key_histories input.anchor.creator_user_id ≡ some history
    pub held : In key (keys_on_day platform history day)
    pub signed :
        verify platform key SigningContext.role_grant (grant_payload platform input g) sig ≡ true

  -- An ordinary grant, by the current admin `current` grants the grantor.
  pub record IsByAdmin (g current : GrantRecord) (day : ℕ) : Type 0 where
    pub sig : Bytes
    pub row : IsRow g day sig
    pub by_another : g.grantor_user_id ≢ g.subject_user_id
    pub is_current : IsCurrent (grants_to g.grantor_user_id input.grants) day current
    pub cited : or_empty g.grantor_grant_ref ≡ current.sort_key
    pub admin : current.granted_role ≡ codes "admin"
    pub signed :
        IsSigned g.grantor_user_id day SigningContext.role_grant
          (grant_payload platform input g)
          sig

  -- A member's own step down from the role that `current` gave.
  pub record IsStepDown (g current : GrantRecord) (day : ℕ) : Type 0 where
    pub sig : Bytes
    pub row : IsRow g day sig
    pub by_self : g.grantor_user_id ≡ g.subject_user_id
    pub to_member : g.granted_role ≡ codes "member"
    pub listed : In current (grants_to g.subject_user_id input.grants)
    pub own_day : ℕ
    pub dated : IsDated current own_day
    pub before : own_day < day
    pub cited : or_empty g.grantor_grant_ref ≡ current.sort_key
    pub elevated :
        (current.granted_role ≡ codes "admin") ⊎ (current.granted_role ≡ codes "ambassador")
    pub signed :
        IsSigned g.subject_user_id day SigningContext.role_grant
          (grant_payload platform input g)
          sig

  -- A designation that `current`, the admin's current grant, entitles the admin to sign.
  pub record IsDesignated (d : DesignationRecord) (current : GrantRecord) (day : ℕ) : Type 0 where
    pub key : ParsedKey
    pub parses : parse_designation_key platform d.sort_key ≡ some key
    pub is_day : key.day ≡ day
    pub unique : duplicated_designation d.sort_key (served_designations platform input) ≡ false
    pub own_admin : key.subject ≡ d.admin_user_id
    pub sig : Bytes
    pub is_current : IsCurrent (grants_to d.admin_user_id input.grants) day current
    pub cited : d.admin_grant_ref ≡ current.sort_key
    pub admin : current.granted_role ≡ codes "admin"
    pub at_least : 30 ≤ days d.period_days
    pub at_most : days d.period_days ≤ 365
    pub signed :
        IsSigned d.admin_user_id day SigningContext.successor_designation
          (successor_designation_payload platform input.group_id d.admin_user_id
            (or_empty d.successor_user_id)
            (days d.period_days)
            d.sort_key
            d.admin_grant_ref)
          sig

  -- A successor's claim of the admin role, on the strength of a designation of day `from`: the one that
  -- it relies on, on which no other grant relies, which the admin has not replaced by another since,
  -- and since which no grant was made to the admin.
  pub record IsClaim (g : GrantRecord) (d : DesignationRecord) (from day : ℕ) : Type 0 where
    pub sig : Bytes
    pub row : IsRow g day sig
    pub admin : g.granted_role ≡ codes "admin"
    pub named : d.successor_user_id ≡ some g.subject_user_id
    pub names_admin : g.grantor_user_id ≡ d.admin_user_id
    pub cited : or_empty g.grantor_grant_ref ≡ d.admin_grant_ref
    pub relied_on : d.sort_key ≡ or_empty g.via_designation
    pub spent_once :
        (o other : GrantRecord)
        → In o input.grants
        → o.via_designation ≡ some d.sort_key
        → In other input.grants
        → other.via_designation ≡ some d.sort_key
        → o ≡ other
    pub elapsed : from + days d.period_days * day_ms ≤ day
    pub not_ahead : (now : ℕ) → input.now ≡ some now → day ≤ now + claim_day_skew_tolerance_ms
    pub not_again :
        (o : DesignationRecord) (k : ParsedKey)
        → In o (served_designations platform input)
        → o.admin_user_id ≡ d.admin_user_id
        → o.sort_key ≢ d.sort_key
        → parse_designation_key platform o.sort_key ≡ some k
        → from ≤ k.day
        → ¬ (k.day ≤ day)
    pub admin_untouched :
        (o : GrantRecord) (k : ℕ)
        → In o (grants_to d.admin_user_id input.grants)
        → IsDated o k
        → from ≤ k
        → ¬ (k ≤ day)
    pub signed :
        IsSigned g.subject_user_id day SigningContext.successor_claim
          (successor_claim_payload platform input.group_id g.subject_user_id
            (or_empty g.via_designation)
            g.sort_key)
          sig

  pub data Justified : GrantRecord → Type 0 where
    root : {g : GrantRecord} → IsRoot g → Justified g
    granted :
        {g current : GrantRecord} (day : ℕ)
        → IsByAdmin g current day
        → ((o : GrantRecord)
            → In o (grants_to g.grantor_user_id input.grants)
            → IsDated o day
            → is_self_demotion o ≡ true)
        → Justified current
        → Justified g
    demoted :
        {g current : GrantRecord} (day : ℕ)
        → IsStepDown g current day
        → Justified current
        → Justified g
    claimed :
        {g current : GrantRecord} {d : DesignationRecord} (from day : ℕ)
        → In d (served_designations platform input)
        → IsDesignated d current from
        → IsClaim g d from day
        → Justified current
        → Justified g
