-- ===== src/Screens/Jobs.antt =====
-- What the jobs of rotationJobs.ts do with the guard, and when a removal is followed by a rotation.
use undergroundbb.Base.{
  ap, [], ◌∷◌, Bool-cases, ◌∙◌, ℕ, suc, ◌≡◌, refl, subst, inl, inr, Bool, true, false, List, Option,
  none, some, Text, arith, Option-cases, every,
}
use undergroundbb.Screens.Guard.{
  removed, rotation_in_progress, ambiguous, apply_ops, GuardState, is_held, try_acquire, Awaited,
  ran, await_then, finished, job_done, finally_release, with_guard, RemoveResult, RotationNeed,
  rotation_needed_after, RemoveAndRotate, rotate_after, remove_and_rotate,
}
use undergroundbb.Screens.GuardLaws.{IsHeldBy, leaves, await_then-IsHeldBy, with_guard_frees}

job_done_ran : {A : Type 0} (o : Option A) (a : A) → job_done o ≡ some (ran a) → o ≡ some a
unfolding job_done
job_done_ran none a e = cc e
job_done_ran (some b) a e = cc e

-- A removal that needs a rotation to follow it, and whom the rotation leaves out: one that started a
-- rotation, one that met a rotation that somebody has not finished, and one that got no answer in a
-- rotating group, since it may have been done.
pub data NeedsRotation (rotating_group : Bool) (subject : Text)
    : RemoveResult → List Text → Type 0 where
  started : NeedsRotation rotating_group subject (removed true) (subject ∷ [])
  unfinished : NeedsRotation rotating_group subject rotation_in_progress []
  unanswered : rotating_group ≡ true → NeedsRotation rotating_group subject ambiguous (subject ∷ [])

pub IsSettled : Bool → Text → RemoveResult → Type 0
IsSettled rotating_group subject removal =
    (exclude : List Text) → ¬ NeedsRotation rotating_group subject removal exclude

needed :
    (removal : RemoveResult) (rotating_group : Bool) (subject : Text) (exclude : List Text)
    → rotation_needed_after removal rotating_group subject ≡ some exclude
    → NeedsRotation rotating_group subject removal exclude
unfolding rotation_needed_after
needed (removed true) g subject exclude e =
    subst (NeedsRotation g subject (removed true)) (cc e) started
needed rotation_in_progress g subject exclude e =
    subst (NeedsRotation g subject rotation_in_progress) (cc e) unfinished
needed ambiguous true subject exclude e =
    subst (NeedsRotation true subject ambiguous) (cc e) (unanswered refl)
needed removal g subject exclude e = cc e

not_needed :
    (removal : RemoveResult) (rotating_group : Bool) (subject : Text)
    → rotation_needed_after removal rotating_group subject ≡ none
    → IsSettled rotating_group subject removal
unfolding IsSettled rotation_needed_after
not_needed removal g subject e exclude started = cc e
not_needed removal g subject e exclude unfinished = cc e
not_needed removal g subject e exclude (unanswered on) = ground (arith, on, e)

took_free : (s : GuardState) (token : ℕ) → (try_acquire s).0 ≡ some token → is_held s ≡ false
unfolding try_acquire
took_free s token e = elim (Bool-cases (is_held s)) [
  | inr free ↦ free
  | inl held ↦ absurd (ground (arith, held, e))
]

module _ (Rotation : Type 0) (run_remove_member : Awaited RemoveResult)
    (run_rotation : List Text → Awaited Rotation) (subject : Text) (rotating_group : Bool) where
  rotate_after-IsHeldBy :
      (token made : ℕ) (need : RotationNeed) (removal : RemoveResult) (u : GuardState)
      → ((exclude : List Text) → every (leaves token) (run_rotation exclude).meanwhile ≡ true)
      → IsHeldBy token made u
      → IsHeldBy token made (rotate_after Rotation run_rotation removal need u).1
  unfolding rotate_after finished
  rotate_after-IsHeldBy token made none removal u rotating h = h
  rotate_after-IsHeldBy token made (some exclude) removal u rotating h =
      await_then-IsHeldBy token made (run_rotation exclude) _ u (rotating exclude)
        (λ outcome v held. held) h

  -- A removal job that starts on a free guard leaves it free, whatever its calls return or throw, if
  -- nobody else calls the release function of the job's own hold.
  pub remove_and_rotate_frees :
      (s : GuardState)
      → is_held s ≡ false
      → every (leaves s.tokens) run_remove_member.meanwhile ≡ true
      → ((exclude : List Text) → every (leaves s.tokens) (run_rotation exclude).meanwhile ≡ true)
      → is_held
          (remove_and_rotate Rotation run_remove_member run_rotation subject rotating_group s).1
        ≡ false
  unfolding remove_and_rotate finished
  remove_and_rotate_frees s free removing rotating = with_guard_frees _ s free (λ t.
      await_then-IsHeldBy s.tokens (suc s.tokens) run_remove_member _ t removing (λ removal u.
        rotate_after-IsHeldBy s.tokens (suc s.tokens)
          (rotation_needed_after removal rotating_group subject) removal u rotating))

  -- The removal was followed up: by a rotation that left out whom it had to, if one was needed, and by
  -- none if none was.
  pub data IsFollowedUp (removal : RemoveResult) : Option Rotation → RotationNeed → Type 0 where
    rotated :
        {exclude : List Text} {outcome : Rotation}
        → NeedsRotation rotating_group subject removal exclude
        → (run_rotation exclude).result ≡ some outcome
        → IsFollowedUp removal (some outcome) (some exclude)
    left : IsSettled rotating_group subject removal → IsFollowedUp removal none none

  rotate_after_ran :
      (removal : RemoveResult) (need : RotationNeed) (u : GuardState) (r : RemoveAndRotate Rotation)
      → rotation_needed_after removal rotating_group subject ≡ need
      → (rotate_after Rotation run_rotation removal need u).0 ≡ some r
      → (removal ≡ r.removal) × IsFollowedUp removal r.rotation r.need
  unfolding rotate_after finished await_then
  rotate_after_ran removal none u r asks e =
      let same : record { removal = removal; rotation = none; need = none } ≡ r = cc e in
      (
        ap (λ x. x.removal) same,
        subst (λ x. IsFollowedUp removal x.rotation x.need) same
            (left (not_needed removal rotating_group subject asks)),
      )
  rotate_after_ran removal (some exclude) u r asks e =
      elim (Option-cases (run_rotation exclude).result) [
        | inl throws ↦ absurd (ground (arith, throws, e))
        | inr (outcome, returns) ↦
            let done : some
                  (record { removal = removal; rotation = some outcome; need = some exclude })
                ≡ some r =
              ground (arith, returns, e) in
            let same : record { removal = removal; rotation = some outcome; need = some exclude }
                ≡ r =
              cc done in
            (
              ap (λ x. x.removal) same,
              subst (λ x. IsFollowedUp removal x.rotation x.need) same
                  (rotated (needed removal rotating_group subject exclude asks) returns),
            )
      ]

  -- A removal job that ran to its end had found the guard free; it ran the removal, and then a
  -- rotation exactly if the removal started one, met an unfinished one, or got no answer in a
  -- rotating group, leaving out the subject in the first and the last case and nobody in the
  -- second.
  pub remove_and_rotate_ran :
      (s : GuardState) (r : RemoveAndRotate Rotation)
      → (remove_and_rotate Rotation run_remove_member run_rotation subject rotating_group s).0
        ≡ some (ran r)
      → (is_held s ≡ false)
        × (run_remove_member.result ≡ some r.removal)
        × IsFollowedUp r.removal r.rotation r.need
  unfolding remove_and_rotate with_guard finally_release await_then job_done
  remove_and_rotate_ran s r e = elim (Option-cases (try_acquire s).0) [
    | inl held ↦ absurd (ground (arith, held, e))
    | inr (token, took) ↦ elim (Option-cases run_remove_member.result) [
      | inl throws ↦ absurd (ground (arith, took, throws, e))
      | inr (removal, returns) ↦
          let need = rotation_needed_after removal rotating_group subject in
          let u = apply_ops run_remove_member.meanwhile (try_acquire s).1 in
          let done : job_done (rotate_after Rotation run_rotation removal need u).0 ≡ some (ran r) =
            ground (arith, took, returns, e) in
          let (same, followed) = rotate_after_ran removal need u r refl (job_done_ran _ r done) in
          (
            took_free s token took,
            returns ∙ ap some same,
            subst (λ x. IsFollowedUp x r.rotation r.need) same followed,
          )
    ]
  ]
