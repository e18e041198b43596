-- ===== src/Screens/PostLaws.antt =====
-- What holds of the controls of a post.
use undergroundbb.Base.{
  ◌≡◌, refl, inl, inr, Bool, true, false, List, some, arith, Text, Bool-cases, if◌then◌else◌,
  is_some,
}
use undergroundbb.Screens.Distinct.{includes}
use undergroundbb.Screens.Posts.{
  PostControlMode, idle, editing, confirm_delete, PostControlsState, initial_post_controls_state,
  PostControlsEvent, edit_opened, draft_edited, delete_asked, closed, started, finished,
  first_page_failed, failed, first_page_loaded, end_reached, sort_key_of, is_live_post,
  next_post_draft, close_post_unless, next_post_controls_state,
}

-- The event starts a send or answers one.
unfoldable pub is_of_post_send : PostControlsEvent → Bool
is_of_post_send started = true
is_of_post_send finished = true
is_of_post_send (failed message says) = true
is_of_post_send (edit_opened sort_key title body) = false
is_of_post_send (draft_edited title body) = false
is_of_post_send (delete_asked sort_key) = false
is_of_post_send closed = false
is_of_post_send first_page_failed = false
is_of_post_send (first_page_loaded live_keys has_more) = false
is_of_post_send (end_reached live_keys) = false

-- While a send is in flight, only its own events change anything in the controls of a post.
pub busy_post_controls_keep :
    (state : PostControlsState) (event : PostControlsEvent)
    → state.busy ≡ true
    → is_of_post_send event ≡ false
    → next_post_controls_state state event ≡ state
unfolding next_post_controls_state is_of_post_send close_post_unless
busy_post_controls_keep state (edit_opened sort_key title body) b e = rw b refl
busy_post_controls_keep state (draft_edited title body) b e = rw b refl
busy_post_controls_keep state (delete_asked sort_key) b e = rw b refl
busy_post_controls_keep state closed b e = rw b refl
busy_post_controls_keep state first_page_failed b e = rw b refl
busy_post_controls_keep state (first_page_loaded live_keys has_more) b e = rw b refl
busy_post_controls_keep state (end_reached live_keys) b e = rw b refl
busy_post_controls_keep state started b e = cc
busy_post_controls_keep state finished b e = cc
busy_post_controls_keep state (failed message says) b e = cc

-- A state that the controls of a post can be in.
pub data ReachedPost : PostControlsState → Type 0 where
  initially : ReachedPost initial_post_controls_state
  next :
      {state : PostControlsState}
      → ReachedPost state
      → (event : PostControlsEvent) → ReachedPost (next_post_controls_state state event)

unfoldable explains : PostControlsState → Bool
explains state = if state.gone then is_some state.error else true

if_explains :
    (b : Bool) (s t : PostControlsState)
    → explains s ≡ true
    → explains t ≡ true
    → explains (if b then s else t) ≡ true
if_explains true s t c d = c
if_explains false s t c d = d

draft_explains :
    (state : PostControlsState) (title body : Text) (mode : PostControlMode)
    → explains state ≡ true
    → explains (next_post_draft state title body mode) ≡ true
unfolding explains next_post_draft
draft_explains state title body idle c = c
draft_explains state title body (confirm_delete sort_key) c = c
draft_explains state title body (editing sort_key old_title old_body draft) c = refl

step_explains :
    (s : PostControlsState) (event : PostControlsEvent)
    → explains s ≡ true
    → explains (next_post_controls_state s event) ≡ true
unfolding explains next_post_controls_state close_post_unless
step_explains s (edit_opened sort_key title body) c = if_explains s.busy s _ c refl
step_explains s (draft_edited title body) c =
    if_explains s.busy s _ c (draft_explains s title body s.mode c)
step_explains s (delete_asked sort_key) c = if_explains s.busy s _ c refl
step_explains s closed c = if_explains s.busy s _ c refl
step_explains s started c = refl
step_explains s finished c = refl
step_explains s first_page_failed c = if_explains _ s (record s { mode = idle }) c c
step_explains s (failed message says) c = ground arith
step_explains s (first_page_loaded live_keys has_more) c =
    if_explains _ s (record s { mode = idle }) c c
step_explains s (end_reached live_keys) c = if_explains _ s (record s { mode = idle }) c c

explains_always : (state : PostControlsState) → ReachedPost state → explains state ≡ true
unfolding explains initial_post_controls_state
explains_always state initially = refl
explains_always state (next r event) = step_explains _ event (explains_always _ r)

-- In every state that the controls of a post can reach, a form whose post is gone says why.
pub gone_post_has_error :
    (state : PostControlsState) → ReachedPost state → state.gone ≡ true → is_some state.error ≡ true
unfolding explains
gone_post_has_error state r e = ground (arith, e, explains_always state r)

-- Once the last page is loaded and no send is in flight, the form that is open, if any, is about a live
-- post.
pub end_reached_live_post :
    (state : PostControlsState) (live_keys : List Text) (sort_key : Text)
    → state.busy ≡ false
    → sort_key_of (next_post_controls_state state (end_reached live_keys)).mode ≡ some sort_key
    → includes sort_key live_keys ≡ true
unfolding next_post_controls_state close_post_unless is_live_post sort_key_of
end_reached_live_post state live_keys sort_key b e =
    elim (Bool-cases (is_live_post state.mode live_keys)) [
      | inr away ↦ absurd (ground (arith, b, away, e))
      | inl live ↦
          let about : sort_key_of state.mode ≡ some sort_key = ground (arith, b, live, e) in
          ground (arith, about, live)
    ]
