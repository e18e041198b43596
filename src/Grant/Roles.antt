-- ===== src/Grant/Roles.antt =====
-- `checkMemberRole` of grant-chain.ts: whether a role that the roster shows is backed by the chain.
use undergroundbb.Grant.SortKey.{parse_sort_key}
use undergroundbb.Grant.Verify.{verdict_of, GrantChainResult}
use undergroundbb.Grant.Scan.{note, stop, grants_to, counted, nothing_yet, Latest, Act, scan}
use undergroundbb.Platform.{Platform}
use undergroundbb.Base.{
  codes, ◌===◌, ◌==◌, ltb, length, if◌then◌else◌, ◌∷◌, some, Option, Text, none, [],
}
use undergroundbb.Grant.Records.{Reason, GrantVerdict, GrantRecord, valid, reject}

pub data RoleReason : Type 0 where
  no_backing malformed ambiguous_latest other_role : RoleReason
  not_valid : Option Reason → RoleReason

pub data RoleStatus : Type 0 where
  verified : RoleStatus
  unverified : RoleReason → RoleStatus

abbrev reason_of : Option GrantVerdict → Option Reason
reason_of none = none
reason_of (some valid) = none
reason_of (some (reject why)) = some why

module _ (platform : Platform) where
  -- The body of the loop over the user's grants: a malformed sort key ends it.
  unfoldable pub body_roster : GrantRecord → Option Act
  body_roster g = elim (parse_sort_key platform g.sort_key) [
    | none ↦ some stop
    | some p ↦ some (note p.day)
  ]

  -- From the user's latest grants on.
  unfoldable pub judge_roster : GrantChainResult → Text → Option Latest → RoleStatus
  judge_roster result claimed_role none = unverified malformed
  judge_roster result claimed_role (some l) = elim l.grants [
    | [] ↦ unverified malformed
    | g ∷ more ↦
        if ltb 0 (length more)
        then unverified ambiguous_latest
        else elim (verdict_of g.sort_key result.verdicts) [
          | some valid ↦ if g.granted_role === claimed_role then verified else unverified other_role
          | verdict ↦ unverified (not_valid (reason_of verdict))
        ]
  ]

  unfoldable pub check_member_role : GrantChainResult → Text → Text → RoleStatus
  unfolding body_roster judge_roster scan nothing_yet counted
  check_member_role result user_id claimed_role =
      let grants = grants_to user_id result.grants in
      if length grants == 0
      then (if claimed_role === codes "member" then verified else unverified no_backing)
      else elim (scan body_roster grants nothing_yet) [
        | none ↦ unverified malformed
        | some latest ↦ judge_roster result claimed_role latest
      ]
