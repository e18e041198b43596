-- ===== src/Screens/Reply.antt =====
-- replyState.ts: what the reply box is doing.
use undergroundbb.Base.{
  Bool, true, false, ◌||◌, List, [], Option, none, some, Text, codes, ◌===◌, if◌then◌else◌,
}
use undergroundbb.Screens.Distinct.{includes}

pub record ReplyState : Type 0 where
  pub reply_to : Option Text
  pub draft : Text
  pub sending : Bool
  pub error : Option Text
  pub notice : Option Text

unfoldable pub initial_reply_state : ReplyState
initial_reply_state = record {
  reply_to = none;
  draft = [];
  sending = false;
  error = none;
  notice = none;
}

pub record SavedReply : Type 0 where
  pub post_id : Text
  pub reply_to : Option Text
  pub draft : Text

unfoldable pub restored_reply_state : Option SavedReply → Text → ReplyState
restored_reply_state none post_id = initial_reply_state
restored_reply_state (some saved) post_id =
    if saved.post_id === post_id
    then record initial_reply_state { reply_to = saved.reply_to; draft = saved.draft }
    else initial_reply_state

pub data ReplyEvent : Type 0 where
  opened : Option Text → ReplyEvent
  edited : Text → ReplyEvent
  send_started : ReplyEvent
  send_failed sent : Text → ReplyEvent
  first_page_loaded : List Text → Bool → ReplyEvent
  end_reached : List Text → ReplyEvent

unfoldable pub target_gone_message : Text
target_gone_message =
    codes
      "The comment you were replying to is no longer here, so your reply will go in as a new comment at the bottom."

-- `replyTo === null || paths.includes(replyTo)`
unfoldable pub is_on_page : Option Text → List Text → Bool
is_on_page none paths = true
is_on_page (some path) paths = includes path paths

unfoldable pub drop_target_unless : Bool → ReplyState → ReplyState
drop_target_unless stays state =
    if stays then state else record state { reply_to = none; error = some target_gone_message }

unfoldable pub next_reply_state : ReplyState → ReplyEvent → ReplyState
next_reply_state state (opened reply_to) =
    if state.sending
    then state
    else record state { reply_to = reply_to; error = none; notice = none }
next_reply_state state (edited draft) =
    if state.sending then state else record state { draft = draft; error = none; notice = none }
next_reply_state state send_started = record state { sending = true; error = none; notice = none }
next_reply_state state (send_failed error) = record state { sending = false; error = some error }
next_reply_state state (first_page_loaded paths has_more) =
    drop_target_unless (state.sending || (has_more || is_on_page state.reply_to paths)) state
next_reply_state state (end_reached paths) =
    drop_target_unless (state.sending || is_on_page state.reply_to paths) state
next_reply_state state (sent notice) = record {
  reply_to = none;
  draft = [];
  sending = false;
  error = none;
  notice = some notice;
}
