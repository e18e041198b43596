-- ===== src/Tests/Forms.antt =====
-- The forms of comments, posts and replies, in small runs.
use undergroundbb.Base.{
  ◌≢◌, ◌⊎◌, ◌≡◌, refl, true, false, [], ◌∷◌, none, some, Text, codes, any, ◌===◌,
}
use undergroundbb.Screens.Distinct.{includes}
use undergroundbb.Screens.Comments.{
  ControlsState, ControlsEvent, initial_controls_state, next_controls_state,
}
use undergroundbb.Screens.CommentLaws.{is_editing, Reached, read_only_not_editing}
use undergroundbb.Screens.Posts.{
  PostControlMode, PostControlsState, PostControlsEvent, initial_post_controls_state,
  next_post_controls_state, sort_key_of, is_live_post, close_post_unless,
}
use undergroundbb.Screens.SavedEdits.{
  restored_comment_controls, restored_post_controls, snapshot_edits, edits_survive,
  CommentComesBack, PostComesBack,
}
use undergroundbb.Screens.Comments.{ControlMode}
use undergroundbb.Screens.Reply.{ReplyState, ReplyEvent, next_reply_state}
use undergroundbb.Screens.ReplyLaws.{sending_keeps, is_answer}

program : Unit {0}
unfolding includes any ◌===◌ initial_controls_state next_controls_state is_editing
    initial_post_controls_state next_post_controls_state sort_key_of is_live_post close_post_unless
    next_reply_state is_answer
program = tt

abbrev top : Text
top = codes "0001"

-- A comment is being edited when a write shows that the post is gone, and is then opened again.
abbrev opened_form : ControlsState
opened_form =
    next_controls_state initial_controls_state (ControlsEvent.edit_opened top (codes "text"))

abbrev turned : ControlsState
turned = next_controls_state opened_form (ControlsEvent.made_read_only none)

abbrev opened_again : ControlsState
opened_again = next_controls_state turned (ControlsEvent.edit_opened top (codes "text"))

first_is_editing : is_editing opened_form.mode ≡ true
unfolding program
first_is_editing = refl

is_read_only : opened_again.read_only ≡ true
unfolding program
is_read_only = refl

read_only_not_editing_example : is_editing opened_again.mode ≡ false
read_only_not_editing_example =
    read_only_not_editing opened_again
      (Reached.next
        (Reached.next
          (Reached.next Reached.initially (ControlsEvent.edit_opened top (codes "text")))
          (ControlsEvent.made_read_only none))
        (ControlsEvent.edit_opened top (codes "text")))
      is_read_only

abbrev asked : PostControlsState
asked = record {
  mode = PostControlMode.confirm_delete top;
  busy = false;
  error = none;
  gone = false;
}

still_open :
    sort_key_of (next_post_controls_state asked (PostControlsEvent.end_reached (top ∷ []))).mode
    ≡ some top
unfolding program
still_open = refl

abbrev form : ControlMode
form = ControlMode.editing top (codes "typed") (codes "text")

edits_survive_example :
    ((codes "post" ≡ codes "post")
      × CommentComesBack (some form) (
          restored_comment_controls
            (snapshot_edits (codes "post") (some form) asked.mode)
            (codes "post"))
      × PostComesBack asked.mode (
          restored_post_controls
            (snapshot_edits (codes "post") (some form) asked.mode)
            (codes "post")))
    ⊎ ((codes "post" ≢ codes "post")
        × (restored_comment_controls
              (snapshot_edits (codes "post") (some form) asked.mode)
              (codes "post")
            ≡ record {
              mode = ControlMode.idle;
              busy = false;
              error = none;
              gone = false;
              read_only = false;
            })
        × (restored_post_controls
              (snapshot_edits (codes "post") (some form) asked.mode)
              (codes "post")
            ≡ record { mode = PostControlMode.idle; busy = false; error = none; gone = false }))
edits_survive_example = edits_survive (codes "post") (codes "post") (some form) asked.mode

abbrev in_flight : ReplyState
in_flight = record {
  reply_to = some top;
  draft = codes "draft";
  sending = true;
  error = none;
  notice = none;
}

edit_is_no_answer : is_answer (ReplyEvent.edited (codes "other")) ≡ false
unfolding program
edit_is_no_answer = refl

sending_keeps_example :
    ((next_reply_state in_flight (ReplyEvent.edited (codes "other"))).draft ≡ codes "draft")
    × ((next_reply_state in_flight (ReplyEvent.edited (codes "other"))).reply_to ≡ some top)
    × ((next_reply_state in_flight (ReplyEvent.edited (codes "other"))).sending ≡ true)
sending_keeps_example =
    sending_keeps in_flight (ReplyEvent.edited (codes "other")) refl edit_is_no_answer
