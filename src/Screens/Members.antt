-- ===== src/Screens/Members.antt =====
-- rotationJobs.ts: the jobs that re-admit a member and that approve a member's new keys, and the guards
-- of the groups. A failure is of any type, of which the jobs ask whether it is ambiguous.
use undergroundbb.Base.{
  ℕ, suc, ◌≡◌, Bool, true, false, List, [], ◌∷◌, Option, none, some, Text, ◌===◌, every,
  if◌then◌else◌,
}
use undergroundbb.Screens.Guard.{
  GuardState, is_held, Awaited, JobResult, Outcome, await_then, finished, with_guard,
}
use undergroundbb.Screens.GuardLaws.{IsHeldBy, leaves, await_then-IsHeldBy, with_guard_frees}

pub data ReadmitResult (Failure : Type 0) : Type 0 where
  readmitted : ReadmitResult Failure
  not_readmitted : Failure → ReadmitResult Failure

pub data ApproveHow : Type 0 where
  rewrap rekey already : ApproveHow

pub data ApproveResult (Failure : Type 0) : Type 0 where
  approved : ApproveHow → ApproveResult Failure
  not_approved : Failure → ApproveResult Failure

-- What a job did, and the rotation's outcome where it ran one.
abbrev pub AndRotate : Type 0 → Type 0 → Type 0
AndRotate A Rotation = A × Option Rotation

unfoldable pub rotate_if :
    {A Rotation : Type 0}
    → Bool
    → A
    → Awaited Rotation
    → GuardState
    → Outcome (AndRotate A Rotation)
rotate_if true a run_rotation = await_then run_rotation (λ outcome. finished (a, some outcome))
rotate_if false a run_rotation = finished (a, none)

module _ (Rotation Failure : Type 0) (is_ambiguous : Failure → Bool)
    (run_rotation : Awaited Rotation) where
  -- `readmit.ok || readmit.kind === 'ambiguous'`
  unfoldable pub may_be_readmitted : ReadmitResult Failure → Bool
  may_be_readmitted readmitted = true
  may_be_readmitted (not_readmitted failure) = is_ambiguous failure

  unfoldable pub readmit_and_rotate :
      Awaited (ReadmitResult Failure)
      → GuardState
      → Outcome (JobResult (AndRotate (ReadmitResult Failure) Rotation))
  readmit_and_rotate run_readmit =
      with_guard (await_then run_readmit (λ r. rotate_if (may_be_readmitted r) r run_rotation))

  -- `approve.ok ? approve.how !== 'rewrap' : approve.kind === 'ambiguous'`
  unfoldable pub may_have_started : ApproveResult Failure → Bool
  may_have_started (approved rewrap) = false
  may_have_started (approved rekey) = true
  may_have_started (approved already) = true
  may_have_started (not_approved failure) = is_ambiguous failure

  unfoldable pub approve_and_rotate :
      Awaited (ApproveResult Failure)
      → GuardState
      → Outcome (JobResult (AndRotate (ApproveResult Failure) Rotation))
  approve_and_rotate run_approve =
      with_guard (await_then run_approve (λ a. rotate_if (may_have_started a) a run_rotation))

rotate_if-IsHeldBy :
    {A Rotation : Type 0} (token made : ℕ) (b : Bool) (a : A) (run_rotation : Awaited Rotation)
    (s : GuardState)
    → every (leaves token) run_rotation.meanwhile ≡ true
    → IsHeldBy token made s
    → IsHeldBy token made (rotate_if b a run_rotation s).1
unfolding rotate_if finished
rotate_if-IsHeldBy token made true a run_rotation s l h =
    await_then-IsHeldBy token made run_rotation _ s l (λ outcome t held. held) h
rotate_if-IsHeldBy token made false a run_rotation s l h = h

module _ (Rotation Failure : Type 0) (is_ambiguous : Failure → Bool)
    (run_rotation : Awaited Rotation) (s : GuardState) where
  -- A job that re-admits a member leaves a guard that was free free.
  pub readmit_and_rotate_frees :
      (run_readmit : Awaited (ReadmitResult Failure))
      → is_held s ≡ false
      → every (leaves s.tokens) run_readmit.meanwhile ≡ true
      → every (leaves s.tokens) run_rotation.meanwhile ≡ true
      → is_held (readmit_and_rotate Rotation Failure is_ambiguous run_rotation run_readmit s).1
        ≡ false
  unfolding readmit_and_rotate
  readmit_and_rotate_frees run_readmit free readmitting rotating = with_guard_frees _ s free (λ t.
      await_then-IsHeldBy s.tokens (suc s.tokens) run_readmit _ t readmitting
        (λ r u. rotate_if-IsHeldBy s.tokens (suc s.tokens) _ r run_rotation u rotating))

  -- A job that approves a member's keys leaves a guard that was free free.
  pub approve_and_rotate_frees :
      (run_approve : Awaited (ApproveResult Failure))
      → is_held s ≡ false
      → every (leaves s.tokens) run_approve.meanwhile ≡ true
      → every (leaves s.tokens) run_rotation.meanwhile ≡ true
      → is_held (approve_and_rotate Rotation Failure is_ambiguous run_rotation run_approve s).1
        ≡ false
  unfolding approve_and_rotate
  approve_and_rotate_frees run_approve free approving rotating = with_guard_frees _ s free (λ t.
      await_then-IsHeldBy s.tokens (suc s.tokens) run_approve _ t approving
        (λ r u. rotate_if-IsHeldBy s.tokens (suc s.tokens) _ r run_rotation u rotating))

-- The guard of each group, by the number of the guard; a new guard is a number that was not used.
pub record Guards : Type 0 where
  pub guards : List (Text × ℕ)
  pub created : ℕ

unfoldable pub guard_of : Text → List (Text × ℕ) → Option ℕ
guard_of group [] = none
guard_of group (e ∷ es) = let rest = guard_of group es in if e.0 === group then some e.1 else rest

unfoldable pub rotation_guard_for : Text → Guards → ℕ × Guards
rotation_guard_for group g = elim (guard_of group g.guards) [
  | some guard ↦ (guard, g)
  | none ↦ (g.created, record { guards = (group, g.created) ∷ g.guards; created = suc g.created })
]
