-- ===== src/Screens/Guard.antt =====
-- rotationJobs.ts: the guard that lets one rotation job run at a time, and the jobs that hold it. A
-- token and a listener are numbers, and a new token is a number that was not used. What other code does
-- with the guard while a job waits is a list of operations. A listener is not modelled further than
-- that it is called: it neither throws nor calls the guard before it returns, as the one subscriber of
-- the source (GroupMembersScreen.tsx), which asks for a new rendering.
use undergroundbb.Base.{
  ℕ, suc, Bool, true, false, not, List, [], ◌∷◌, ◌++◌, Option, none, some, Text, ◌==◌,
  if◌then◌else◌, keep, any, is_some,
}

pub record GuardState : Type 0 where
  pub holder : Option ℕ
  -- The tokens made so far are those below.
  pub tokens : ℕ
  pub listeners : List ℕ
  -- The calls of listeners, the newest first: who was called, with what.
  pub told : List (List ℕ × Bool)

unfoldable pub create_rotation_guard : GuardState
create_rotation_guard = record { holder = none; tokens = 0; listeners = []; told = [] }

unfoldable pub is_held : GuardState → Bool
is_held s = is_some s.holder

unfoldable pub notify : Bool → GuardState → GuardState
notify held s = record s { told = (s.listeners, held) ∷ s.told }

-- The token of the hold; none if a job already holds it.
unfoldable pub try_acquire : GuardState → Option ℕ × GuardState
try_acquire s =
    if is_held s
    then (none, s)
    else (some s.tokens, notify true (record s { holder = some s.tokens; tokens = suc s.tokens }))

-- `holder === token`
unfoldable pub holds : Option ℕ → ℕ → Bool
holds none token = false
holds (some holder) token = holder == token

-- What `tryAcquire` returns, called.
unfoldable pub release : ℕ → GuardState → GuardState
release token s = if holds s.holder token then notify false (record s { holder = none }) else s

unfoldable pub subscribe : ℕ → GuardState → GuardState
subscribe listener s =
    if any (λ l. l == listener) s.listeners
    then s
    else record s { listeners = s.listeners ++ (listener ∷ []) }

unfoldable pub unsubscribe : ℕ → GuardState → GuardState
unsubscribe listener s = record s { listeners = keep (λ l. not (l == listener)) s.listeners }

pub data GuardOp : Type 0 where
  acquiring : GuardOp
  releasing subscribing unsubscribing : ℕ → GuardOp

unfoldable pub apply_op : GuardOp → GuardState → GuardState
apply_op acquiring s = (try_acquire s).1
apply_op (releasing token) s = release token s
apply_op (subscribing listener) s = subscribe listener s
apply_op (unsubscribing listener) s = unsubscribe listener s

unfoldable pub apply_ops : List GuardOp → GuardState → GuardState
apply_ops [] s = s
apply_ops (op ∷ ops) s = apply_ops ops (apply_op op s)

-- An awaited call: what others do with the guard meanwhile, and its result; none where it throws.
pub record Awaited (A : Type 0) : Type 0 where
  pub meanwhile : List GuardOp
  pub result : Option A

pub data JobResult (A : Type 0) : Type 0 where
  busy : JobResult A
  ran : A → JobResult A

-- A job's result, none where it throws, and the guard after it.
abbrev pub Outcome : Type 0 → Type 0
Outcome A = Option A × GuardState

unfoldable pub await_then :
    {A B : Type 0} → Awaited A → (A → GuardState → Outcome B) → GuardState → Outcome B
await_then call rest s = elim call.result [
  | none ↦ (none, apply_ops call.meanwhile s)
  | some a ↦ rest a (apply_ops call.meanwhile s)
]

unfoldable pub finished : {A : Type 0} → A → GuardState → Outcome A
finished a s = (some a, s)

unfoldable pub job_done : {A : Type 0} → Option A → Option (JobResult A)
job_done none = none
job_done (some a) = some (ran a)

-- `try { … } finally { release() }`
unfoldable pub finally_release : {A : Type 0} → ℕ → Outcome A → Outcome (JobResult A)
finally_release token (result, s) = (job_done result, release token s)

-- `const release = guard.tryAcquire()` and what follows it in every job.
unfoldable pub with_guard :
    {A : Type 0} → (GuardState → Outcome A) → GuardState → Outcome (JobResult A)
with_guard body s = elim (try_acquire s).0 [
  | none ↦ (some busy, (try_acquire s).1)
  | some token ↦ finally_release token (body (try_acquire s).1)
]

pub data RemoveResult : Type 0 where
  removed : Bool → RemoveResult
  stale rotation_in_progress auth_required forbidden not_found cold_keys : RemoveResult
  grant_missing no_group_key ambiguous : RemoveResult
  rejected : Text → RemoveResult

-- The users that the rotation must not wrap to; none for no rotation.
abbrev pub RotationNeed : Type 0
RotationNeed = Option (List Text)

unfoldable pub rotation_needed_after : RemoveResult → Bool → Text → RotationNeed
rotation_needed_after (removed rotating) rotating_group subject =
    if rotating then some (subject ∷ []) else none
rotation_needed_after rotation_in_progress rotating_group subject = some []
rotation_needed_after ambiguous rotating_group subject =
    if rotating_group then some (subject ∷ []) else none
rotation_needed_after stale rotating_group subject = none
rotation_needed_after auth_required rotating_group subject = none
rotation_needed_after forbidden rotating_group subject = none
rotation_needed_after not_found rotating_group subject = none
rotation_needed_after cold_keys rotating_group subject = none
rotation_needed_after grant_missing rotating_group subject = none
rotation_needed_after no_group_key rotating_group subject = none
rotation_needed_after (rejected message) rotating_group subject = none

-- The outcome of `runRotation`, of any type.
module _ (Rotation : Type 0) where
  unfoldable pub catch_up_rotation : Awaited Rotation → GuardState → Outcome (JobResult Rotation)
  catch_up_rotation run_rotation = with_guard (await_then run_rotation finished)

  pub record RemoveAndRotate : Type 0 where
    pub removal : RemoveResult
    pub rotation : Option Rotation
    pub need : RotationNeed

  unfoldable pub rotate_after :
      (List Text → Awaited Rotation)
      → RemoveResult
      → RotationNeed
      → GuardState
      → Outcome RemoveAndRotate
  rotate_after run_rotation removal none =
      finished (record { removal = removal; rotation = none; need = none })
  rotate_after run_rotation removal (some exclude) = await_then (run_rotation exclude) (λ outcome.
      finished (record { removal = removal; rotation = some outcome; need = some exclude }))

  unfoldable pub remove_and_rotate :
      Awaited RemoveResult
      → (List Text → Awaited Rotation)
      → Text
      → Bool
      → GuardState
      → Outcome (JobResult RemoveAndRotate)
  remove_and_rotate run_remove_member run_rotation subject rotating_group = with_guard (
      await_then run_remove_member (λ removal.
        rotate_after run_rotation removal (rotation_needed_after removal rotating_group subject)))
