-- ===== src/Screens/Comments.antt =====
-- commentControls.ts: the Edit and Delete controls on a comment.
use undergroundbb.Base.{
  Bool, true, false, not, ◌&&◌, ◌||◌, List, Option, none, some, Text, codes, ◌===◌, if◌then◌else◌,
  is_some,
}
use undergroundbb.Screens.Distinct.{includes}

pub data ControlMode : Type 0 where
  idle : ControlMode
  -- The path, the draft and the original.
  editing : Text → Text → Text → ControlMode
  confirm_delete : Text → ControlMode

pub record ControlsState : Type 0 where
  pub mode : ControlMode
  pub busy : Bool
  pub error : Option Text
  pub gone : Bool
  pub read_only : Bool

unfoldable pub initial_controls_state : ControlsState
initial_controls_state = record {
  mode = idle;
  busy = false;
  error = none;
  gone = false;
  read_only = false;
}

pub data ControlsEvent : Type 0 where
  edit_opened : Text → Text → ControlsEvent
  draft_edited delete_asked : Text → ControlsEvent
  closed started finished first_page_failed : ControlsEvent
  failed : Text → Option Bool → ControlsEvent
  made_read_only : Option Text → ControlsEvent
  first_page_loaded : List Text → Bool → ControlsEvent
  end_reached : List Text → ControlsEvent

-- The comment that the form is about.
unfoldable pub path_of : ControlMode → Option Text
path_of idle = none
path_of (editing path draft original) = some path
path_of (confirm_delete path) = some path

-- `mode.kind === 'idle' || paths.includes(mode.path)`
unfoldable pub is_live : ControlMode → List Text → Bool
is_live mode paths = elim (path_of mode) [ none ↦ true | some path ↦ includes path paths ]

-- `event.gone === true`
unfoldable pub says_gone : Option Bool → Bool
says_gone none = false
says_gone (some b) = b

unfoldable pub next_draft : ControlsState → Text → ControlMode → ControlsState
next_draft state draft idle = state
next_draft state draft (confirm_delete path) = state
next_draft state draft (editing path old original) = record state {
  mode = editing path draft original;
  error = none;
  gone = false;
}

unfoldable pub close_unless : Bool → ControlsState → ControlsState
close_unless stays state = if stays then state else record state { mode = idle }

unfoldable pub next_controls_state : ControlsState → ControlsEvent → ControlsState
next_controls_state state (edit_opened path text) =
    if state.busy || state.read_only
    then state
    else record state { mode = editing path text text; error = none; gone = false }
next_controls_state state (draft_edited draft) =
    if state.busy then state else next_draft state draft state.mode
next_controls_state state (delete_asked path) =
    if state.busy
    then state
    else record state { mode = confirm_delete path; error = none; gone = false }
next_controls_state state closed =
    if state.busy then state else record state { mode = idle; error = none; gone = false }
next_controls_state state started = record state { busy = true; error = none; gone = false }
next_controls_state state (failed message says) = record state {
  busy = false;
  error = some message;
  gone = says_gone says;
}
next_controls_state state finished = record state {
  mode = idle;
  busy = false;
  error = none;
  gone = false;
}
next_controls_state state (made_read_only message) = record state {
  mode = idle;
  busy = false;
  read_only = true;
  error = message;
  gone = false;
}
next_controls_state state (first_page_loaded live_paths has_more) =
    close_unless (state.busy || has_more || is_live state.mode live_paths) state
next_controls_state state (end_reached live_paths) =
    close_unless (state.busy || is_live state.mode live_paths) state
next_controls_state state first_page_failed =
    close_unless (state.busy || not (is_some (path_of state.mode)) || not state.gone) state

-- `failure !== 'notFound' && !readOnly`
unfoldable pub reply_offered : Option Text → Bool → Bool
reply_offered none read_only = not read_only
reply_offered (some failure) read_only = not (failure === codes "notFound") && not read_only
