-- ===== src/Tests/Screens.antt =====
-- A thread of two pages, a removal job, and forms, in small runs.
use undergroundbb.Base.{
  later, inl, none, map, ◌≡◌, refl, true, false, [], ◌∷◌, some, Text, List, codes, any, every, keep,
  ◌===◌, In, first,
}
use undergroundbb.Grant.Records.{natural}
use undergroundbb.Screens.Distinct.{includes, fresh}
use undergroundbb.Screens.Thread.{
  ReactionView, ThreadState, ThreadEvent, page_loaded, page, reaction_saved, reaction_removed,
  initial_thread_state, key_of, reaction_key, without, is_reaction, others, add_page,
  next_thread_state,
}
use undergroundbb.Screens.ThreadSound.{Reachable, IsOrderly, Reachable-IsOrderly}
use undergroundbb.Screens.TakenBack.{
  page_loaded_shows, is_quiet, after_events, taken_back_stays_off,
}
use undergroundbb.Screens.Guard.{
  GuardState, create_rotation_guard, is_held, notify, try_acquire, holds, release, GuardOp,
  acquiring, releasing, apply_op, apply_ops, Awaited, ran, await_then, finished, job_done,
  finally_release, with_guard, RemoveResult, removed, rotation_needed_after, RemoveAndRotate,
  rotate_after, remove_and_rotate,
}
use undergroundbb.Screens.GuardLaws.{IsHeldBy, leaves, apply_ops-IsHeldBy}
use undergroundbb.Screens.Jobs.{remove_and_rotate_frees, remove_and_rotate_ran, IsFollowedUp}
use undergroundbb.Tests.Toy.{alice, bob}

program : Unit {0}
unfolding includes fresh any every keep ◌===◌ initial_thread_state key_of reaction_key without
    is_reaction others add_page next_thread_state is_quiet after_events create_rotation_guard
    is_held notify try_acquire holds release apply_op apply_ops await_then finished job_done
    finally_release with_guard rotation_needed_after rotate_after remove_and_rotate leaves
program = tt

-- An entry of the thread is its path here.
abbrev path : Text → Text
path entry = entry

abbrev top : Text
top = codes "0001"

abbrev heart : ReactionView
heart = record { target = top; reactor_user_id = alice; index = some (natural 2) }

abbrev first_page : ThreadEvent Text
first_page = page_loaded (page (top ∷ top ∷ []) (heart ∷ []) (some (codes "next")))

abbrev loaded : ThreadState Text
loaded = next_thread_state path (initial_thread_state Text) first_page

loaded_once : loaded.comments ≡ top ∷ []
unfolding program
loaded_once = refl

Reachable-IsOrderly_example : IsOrderly path loaded
Reachable-IsOrderly_example =
    Reachable-IsOrderly path loaded (Reachable.next Reachable.initially first_page)

-- Bob's reaction is saved, and a page brings Alice's back, which she had taken back.
abbrev later_events : List (ThreadEvent Text)
later_events = reaction_saved top bob (natural 1) ∷ first_page ∷ []

abbrev bobs : ReactionView
bobs = record { target = top; reactor_user_id = bob; index = some (natural 1) }

later_quiet : every (is_quiet (key_of top alice)) later_events ≡ true
unfolding program
later_quiet = refl

only_bobs :
    (after_events path loaded (reaction_removed top alice ∷ later_events)).reactions ≡ bobs ∷ []
unfolding program
only_bobs = refl

-- A second page brings one comment that is shown already and one that is new.
page_loaded_shows_example : In (codes "0002") (
    map path
      (next_thread_state path loaded
        (page_loaded (page (top ∷ codes "0002" ∷ []) (heart ∷ []) none))).comments)
page_loaded_shows_example =
    page_loaded_shows path loaded (top ∷ codes "0002" ∷ []) (heart ∷ []) none (codes "0002")
      (inl (later (first refl)))

bobs_shown :
    In bobs (after_events path loaded (reaction_removed top alice ∷ later_events)).reactions
bobs_shown = rw only_bobs (first refl)

taken_back_stays_off_example : is_reaction top alice bobs ≡ false
taken_back_stays_off_example =
    taken_back_stays_off path top alice loaded later_events bobs later_quiet bobs_shown

-- A second job tries to acquire, and an old release function is called again.
abbrev meanwhile : List GuardOp
meanwhile = acquiring ∷ releasing 7 ∷ acquiring ∷ []

abbrev taken : GuardState
taken = record { holder = some 0; tokens = 1; listeners = []; told = ([], true) ∷ [] }

meanwhile_leaves : every (leaves 0) meanwhile ≡ true
unfolding program
meanwhile_leaves = refl

apply_ops-IsHeldBy_example : IsHeldBy 0 1 (apply_ops meanwhile taken)
apply_ops-IsHeldBy_example =
    apply_ops-IsHeldBy 0 1 taken meanwhile meanwhile_leaves
      (record { holder = refl; tokens = refl })

abbrev run_remove_member : Awaited RemoveResult
run_remove_member = record { meanwhile = meanwhile; result = some (removed true) }

-- The rotation says whom it left out.
abbrev run_rotation : List Text → Awaited (List Text)
run_rotation exclude = record { meanwhile = acquiring ∷ []; result = some exclude }

guard_free : is_held create_rotation_guard ≡ false
unfolding program
guard_free = refl

removing_leaves : every (leaves create_rotation_guard.tokens) meanwhile ≡ true
unfolding program
removing_leaves = refl

rotating_leaves :
    (exclude : List Text)
    → every (leaves create_rotation_guard.tokens) (run_rotation exclude).meanwhile ≡ true
unfolding program
rotating_leaves exclude = refl

remove_and_rotate_frees_example :
    is_held
      (remove_and_rotate
        (List Text)
        run_remove_member
        run_rotation
        bob
        true
        create_rotation_guard).1
    ≡ false
remove_and_rotate_frees_example =
    remove_and_rotate_frees (List Text) run_remove_member run_rotation bob true
      create_rotation_guard guard_free removing_leaves rotating_leaves

abbrev result : RemoveAndRotate (List Text)
result = record { removal = removed true; rotation = some (bob ∷ []); need = some (bob ∷ []) }

job_ran :
    (remove_and_rotate (List Text) run_remove_member run_rotation bob true create_rotation_guard).0
    ≡ some (ran result)
unfolding program
job_ran = refl

remove_and_rotate_ran_example :
    (is_held create_rotation_guard ≡ false)
    × (run_remove_member.result ≡ some (removed true))
    × IsFollowedUp
        (List Text)
        run_remove_member
        run_rotation
        bob
        true
        (removed true)
        (some (bob ∷ []))
        (some (bob ∷ []))
remove_and_rotate_ran_example =
    remove_and_rotate_ran (List Text) run_remove_member run_rotation bob true create_rotation_guard
      result job_ran
