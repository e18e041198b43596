-- ===== src/Grant/Scan.antt =====
-- The loop that grant-chain.ts writes four times: over a user's grants, it keeps the ones of the
-- latest day, skips some, and returns early at others.
pub mod Laws
use undergroundbb.Base.{
  ℕ, List, [], ◌∷◌, ◌++◌, Option, none, some, ltb, ◌==◌, if◌then◌else◌, Text, ◌===◌, keep,
}
use undergroundbb.Grant.Records.{GrantRecord}

-- What the body of the loop does with one grant: `continue`, an early return, or a grant to count
-- at its day.
pub data Act : Type 0 where
  skip stop : Act
  note : ℕ → Act

-- `latestDay` (none for -Infinity) and `latest`.
pub record Latest : Type 0 where
  pub day : Option ℕ
  pub grants : List GrantRecord

unfoldable pub nothing_yet : Latest
nothing_yet = record { day = none; grants = [] }

unfoldable pub counted : Latest → ℕ → GrantRecord → Latest
counted l day g = elim l.day [
  | none ↦ record { day = some day; grants = g ∷ [] }
  | some latest_day ↦
      if ltb latest_day day
      then record { day = some day; grants = g ∷ [] }
      else if day == latest_day
      then record l { grants = l.grants ++ g ∷ [] }
      else l
]

-- none: a call in the body ran out of stack; some none: an early return.
unfoldable pub scan :
    (GrantRecord → Option Act) → List GrantRecord → Latest → Option (Option Latest)
unfolding counted
scan body [] l = some (some l)
scan body (g ∷ gs) l = elim (body g) [
  | none ↦ none
  | some skip ↦ scan body gs l
  | some stop ↦ some none
  | some (note day) ↦ scan body gs (counted l day g)
]

-- `grantsBySubject.get(user) ?? []`: the grants to a user, in the order served.
unfoldable pub grants_to : Text → List GrantRecord → List GrantRecord
grants_to user = keep (λ g. g.subject_user_id === user)
