-- ===== src/Screens/CommentLaws.antt =====
-- What holds of the controls of a comment.
use undergroundbb.Base.{
  ◌&&◌, ◌≡◌, refl, inl, inr, Bool, true, false, not, List, some, arith, Text, Bool-cases,
  if◌then◌else◌, is_some,
}
use undergroundbb.Screens.Distinct.{includes}
use undergroundbb.Screens.Comments.{
  ControlMode, idle, editing, confirm_delete, ControlsState, initial_controls_state, ControlsEvent,
  edit_opened, draft_edited, delete_asked, closed, started, finished, first_page_failed, failed,
  made_read_only, first_page_loaded, end_reached, path_of, is_live, next_draft, close_unless,
  next_controls_state,
}

unfoldable pub is_editing : ControlMode → Bool
is_editing idle = false
is_editing (editing path draft original) = true
is_editing (confirm_delete path) = false

-- The event starts a send or answers one.
unfoldable pub is_of_send : ControlsEvent → Bool
is_of_send started = true
is_of_send finished = true
is_of_send (failed message why) = true
is_of_send (made_read_only message) = true
is_of_send (edit_opened path text) = false
is_of_send (draft_edited draft) = false
is_of_send (delete_asked path) = false
is_of_send closed = false
is_of_send first_page_failed = false
is_of_send (first_page_loaded live_paths has_more) = false
is_of_send (end_reached live_paths) = false

-- While a send is in flight, only its own events change anything.
pub busy_controls_keep :
    (state : ControlsState) (event : ControlsEvent)
    → state.busy ≡ true
    → is_of_send event ≡ false
    → next_controls_state state event ≡ state
unfolding next_controls_state is_of_send close_unless
busy_controls_keep state (edit_opened path text) b e = rw b refl
busy_controls_keep state (draft_edited draft) b e = rw b refl
busy_controls_keep state (delete_asked path) b e = rw b refl
busy_controls_keep state closed b e = rw b refl
busy_controls_keep state first_page_failed b e = rw b refl
busy_controls_keep state (first_page_loaded live_paths has_more) b e = rw b refl
busy_controls_keep state (end_reached live_paths) b e = rw b refl
busy_controls_keep state started b e = cc
busy_controls_keep state finished b e = cc
busy_controls_keep state (failed message why) b e = cc
busy_controls_keep state (made_read_only message) b e = cc

-- A state that the controls can be in.
pub data Reached : ControlsState → Type 0 where
  initially : Reached initial_controls_state
  next :
      {state : ControlsState}
      → Reached state
      → (event : ControlsEvent) → Reached (next_controls_state state event)

-- A form to edit and a thread that is read only exclude one another, and so do a form whose comment is
-- gone and no error.
unfoldable is_consistent : ControlsState → Bool
is_consistent state =
    (if state.read_only then not (is_editing state.mode) else true)
    && (if state.gone then is_some state.error else true)

draft_consistent :
    (state : ControlsState) (draft : Text) (mode : ControlMode)
    → state.mode ≡ mode
    → is_consistent state ≡ true
    → is_consistent (next_draft state draft mode) ≡ true
unfolding is_consistent next_draft is_editing
draft_consistent state draft idle m c = c
draft_consistent state draft (confirm_delete path) m c = c
draft_consistent state draft (editing path old original) m c = ground (arith, m, c)

if_consistent :
    (b : Bool) (s t : ControlsState)
    → is_consistent s ≡ true
    → is_consistent t ≡ true
    → is_consistent (if b then s else t) ≡ true
if_consistent true s t c d = c
if_consistent false s t c d = d

close_unless_consistent :
    (stays : Bool) (state : ControlsState)
    → is_consistent state ≡ true
    → is_consistent (close_unless stays state) ≡ true
unfolding is_consistent close_unless is_editing
close_unless_consistent stays state c = ground (arith, c)

step_consistent :
    (state : ControlsState) (event : ControlsEvent)
    → is_consistent state ≡ true
    → is_consistent (next_controls_state state event) ≡ true
unfolding is_consistent next_controls_state is_editing
step_consistent state (edit_opened path text) c = ground (arith, c)
step_consistent state (draft_edited draft) c =
    if_consistent state.busy state (next_draft state draft state.mode) c
      (draft_consistent state draft state.mode refl c)
step_consistent state (delete_asked path) c = ground (arith, c)
step_consistent state closed c = ground (arith, c)
step_consistent state first_page_failed c = close_unless_consistent _ state c
step_consistent state (first_page_loaded live_paths has_more) c = close_unless_consistent _ state c
step_consistent state (end_reached live_paths) c = close_unless_consistent _ state c
step_consistent state started c = ground (arith, c)
step_consistent state finished c = ground (arith, c)
step_consistent state (failed message why) c = ground (arith, c)
step_consistent state (made_read_only message) c = ground (arith, c)

consistent_always : (state : ControlsState) → Reached state → is_consistent state ≡ true
unfolding is_consistent initial_controls_state
consistent_always state initially = refl
consistent_always state (next r event) = step_consistent _ event (consistent_always _ r)

-- In every state that the controls can reach, no comment is being edited in a thread that turned read
-- only.
pub read_only_not_editing :
    (state : ControlsState) → Reached state → state.read_only ≡ true → is_editing state.mode ≡ false
unfolding is_consistent
read_only_not_editing state r e = ground (arith, e, consistent_always state r)

-- Once the last page is loaded and no send is in flight, the form that is open, if any, is about a live
-- comment.
pub end_reached_live :
    (state : ControlsState) (live_paths : List Text) (path : Text)
    → state.busy ≡ false
    → path_of (next_controls_state state (end_reached live_paths)).mode ≡ some path
    → includes path live_paths ≡ true
unfolding next_controls_state close_unless is_live path_of
end_reached_live state live_paths path b e = elim (Bool-cases (is_live state.mode live_paths)) [
  | inr away ↦ absurd (ground (arith, b, away, e))
  | inl live ↦
      let about : path_of state.mode ≡ some path = ground (arith, b, live, e) in
      ground (arith, about, live)
]
