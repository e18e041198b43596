-- ===== src/Screens/Posts.antt =====
-- postControls.ts: the Edit and Delete controls on a post.
use undergroundbb.Base.{
  Bool, true, false, not, ◌||◌, List, Option, none, some, Text, if◌then◌else◌, is_some,
}
use undergroundbb.Screens.Distinct.{includes}
use undergroundbb.Screens.Comments.{says_gone}

pub data PostControlMode : Type 0 where
  idle : PostControlMode
  -- The sort key, the title and the body of the post, and the draft of both.
  editing : Text → Text → Text → Option (Text × Text) → PostControlMode
  confirm_delete : Text → PostControlMode

pub record PostControlsState : Type 0 where
  pub mode : PostControlMode
  pub busy : Bool
  pub error : Option Text
  pub gone : Bool

unfoldable pub initial_post_controls_state : PostControlsState
initial_post_controls_state = record { mode = idle; busy = false; error = none; gone = false }

pub data PostControlsEvent : Type 0 where
  edit_opened : Text → Text → Text → PostControlsEvent
  draft_edited : Text → Text → PostControlsEvent
  delete_asked : Text → PostControlsEvent
  closed started finished first_page_failed : PostControlsEvent
  failed : Text → Option Bool → PostControlsEvent
  first_page_loaded : List Text → Bool → PostControlsEvent
  end_reached : List Text → PostControlsEvent

-- The post that the form is about.
unfoldable pub sort_key_of : PostControlMode → Option Text
sort_key_of idle = none
sort_key_of (editing sort_key title body draft) = some sort_key
sort_key_of (confirm_delete sort_key) = some sort_key

-- `mode.kind === 'idle' || keys.includes(mode.sortKey)`
unfoldable pub is_live_post : PostControlMode → List Text → Bool
is_live_post mode keys = elim (sort_key_of mode) [ none ↦ true | some key ↦ includes key keys ]

unfoldable pub next_post_draft :
    PostControlsState → Text → Text → PostControlMode → PostControlsState
next_post_draft state title body idle = state
next_post_draft state title body (confirm_delete sort_key) = state
next_post_draft state title body (editing sort_key old_title old_body draft) = record state {
  mode = editing sort_key old_title old_body (some (title, body));
  error = none;
  gone = false;
}

unfoldable pub close_post_unless : Bool → PostControlsState → PostControlsState
close_post_unless stays state = if stays then state else record state { mode = idle }

unfoldable pub next_post_controls_state : PostControlsState → PostControlsEvent → PostControlsState
next_post_controls_state state (edit_opened sort_key title body) =
    if state.busy
    then state
    else record state { mode = editing sort_key title body none; error = none; gone = false }
next_post_controls_state state (draft_edited title body) =
    if state.busy then state else next_post_draft state title body state.mode
next_post_controls_state state (delete_asked sort_key) =
    if state.busy
    then state
    else record state { mode = confirm_delete sort_key; error = none; gone = false }
next_post_controls_state state closed =
    if state.busy then state else record state { mode = idle; error = none; gone = false }
next_post_controls_state state started = record state { busy = true; error = none; gone = false }
next_post_controls_state state (failed message says) = record state {
  busy = false;
  error = some message;
  gone = says_gone says;
}
next_post_controls_state state finished = record {
  mode = idle;
  busy = false;
  error = none;
  gone = false;
}
next_post_controls_state state (first_page_loaded live_keys has_more) =
    close_post_unless (state.busy || has_more || is_live_post state.mode live_keys) state
next_post_controls_state state (end_reached live_keys) =
    close_post_unless (state.busy || is_live_post state.mode live_keys) state
next_post_controls_state state first_page_failed =
    close_post_unless (state.busy || not (is_some (sort_key_of state.mode)) || not state.gone) state
