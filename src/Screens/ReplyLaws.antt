-- ===== src/Screens/ReplyLaws.antt =====
-- What holds of the reply box.
use undergroundbb.Base.{
  ◌===◌, ◌≡◌, refl, inl, inr, Bool, true, false, not, ◌||◌, ◌&&◌, List, Option, none, some, arith,
  Text, Bool-cases, if◌then◌else◌, is_some,
}
use undergroundbb.Screens.Distinct.{includes}
use undergroundbb.Screens.Reply.{
  ReplyState, initial_reply_state, SavedReply, restored_reply_state, ReplyEvent, opened, edited,
  send_started, send_failed, sent, first_page_loaded, end_reached, is_on_page, drop_target_unless,
  next_reply_state,
}

-- A state that the box of a post's thread can be in.
pub data ReachedReply (saved : Option SavedReply) (post_id : Text) : ReplyState → Type 0 where
  initially : ReachedReply saved post_id (restored_reply_state saved post_id)
  next :
      {state : ReplyState}
      → ReachedReply saved post_id state
      → (event : ReplyEvent) → ReachedReply saved post_id (next_reply_state state event)

-- The event answers a send.
unfoldable pub is_answer : ReplyEvent → Bool
is_answer (send_failed error) = true
is_answer (sent notice) = true
is_answer (opened reply_to) = false
is_answer (edited draft) = false
is_answer send_started = false
is_answer (first_page_loaded paths has_more) = false
is_answer (end_reached paths) = false

-- While a send is in flight, nothing but its answer changes the draft, its target or the sending.
pub sending_keeps :
    (state : ReplyState) (event : ReplyEvent)
    → state.sending ≡ true
    → is_answer event ≡ false
    → ((next_reply_state state event).draft ≡ state.draft)
      × ((next_reply_state state event).reply_to ≡ state.reply_to)
      × ((next_reply_state state event).sending ≡ true)
unfolding next_reply_state is_answer drop_target_unless
sending_keeps state (opened reply_to) s e = rw s (refl, refl, refl)
sending_keeps state (edited draft) s e = rw s (refl, refl, refl)
sending_keeps state send_started s e = (refl, refl, refl)
sending_keeps state (first_page_loaded paths has_more) s e = rw s (refl, refl, refl)
sending_keeps state (end_reached paths) s e = rw s (refl, refl, refl)
sending_keeps state (send_failed error) s e = cc
sending_keeps state (sent notice) s e = cc

-- A box that is sending shows no error and no notice.
unfoldable is_plain : ReplyState → Bool
is_plain state =
    if state.sending then not (is_some state.error) && not (is_some state.notice) else true

if_plain :
    (b : Bool) (s t : ReplyState)
    → is_plain s ≡ true
    → is_plain t ≡ true
    → is_plain (if b then s else t) ≡ true
if_plain true s t c d = c
if_plain false s t c d = d

restored_plain :
    (saved : Option SavedReply) (post_id : Text)
    → is_plain (restored_reply_state saved post_id) ≡ true
unfolding is_plain restored_reply_state initial_reply_state
restored_plain none post_id = refl
restored_plain (some saved) post_id =
    if_plain (saved.post_id === post_id) _ initial_reply_state refl refl

-- What a page drops, it drops only from a box that is not sending.
dropped_plain :
    (state : ReplyState) (stays : Bool)
    → is_plain state ≡ true
    → is_plain (drop_target_unless (state.sending || stays) state) ≡ true
unfolding is_plain drop_target_unless
dropped_plain state stays c = ground (arith, c)

opened_plain :
    (state changed : ReplyState)
    → is_plain state ≡ true
    → changed.error ≡ none
    → changed.notice ≡ none
    → is_plain (if state.sending then state else changed) ≡ true
unfolding is_plain
opened_plain state changed c e n = ground (arith, c, e, n)

step_plain :
    (state : ReplyState) (event : ReplyEvent)
    → is_plain state ≡ true
    → is_plain (next_reply_state state event) ≡ true
unfolding next_reply_state is_plain
step_plain s (opened reply_to) c = opened_plain s _ c refl refl
step_plain s (edited draft) c = opened_plain s _ c refl refl
step_plain s send_started c = refl
step_plain s (send_failed error) c = refl
step_plain s (sent notice) c = refl
step_plain s (first_page_loaded paths has_more) c =
    dropped_plain s (has_more || is_on_page s.reply_to paths) c
step_plain s (end_reached paths) c = dropped_plain s (is_on_page s.reply_to paths) c

plain_always :
    (saved : Option SavedReply) (post_id : Text) (state : ReplyState)
    → ReachedReply saved post_id state
    → is_plain state ≡ true
plain_always saved post_id state initially = restored_plain saved post_id
plain_always saved post_id state (next r event) =
    step_plain _ event (plain_always saved post_id _ r)

is_some-eq_false : {A : Type 0} (o : Option A) → is_some o ≡ false → o ≡ none
is_some-eq_false none e = refl
is_some-eq_false (some a) e = cc

-- In every state that the box can reach, it shows no error and no notice while it is sending.
pub sending_shows_nothing :
    (saved : Option SavedReply) (post_id : Text) (state : ReplyState)
    → ReachedReply saved post_id state
    → state.sending ≡ true
    → (state.error ≡ none) × (state.notice ≡ none)
unfolding is_plain
sending_shows_nothing saved post_id state r s =
    let plain : (is_some state.error ≡ false) × (is_some state.notice ≡ false) =
      ground (arith, s, plain_always saved post_id state r) in
    (is_some-eq_false state.error plain.0, is_some-eq_false state.notice plain.1)

-- Once the last page is loaded and no send is in flight, the comment that is being replied to, if any, is
-- live on the page.
pub end_reached_on_page :
    (state : ReplyState) (paths : List Text) (path : Text)
    → state.sending ≡ false
    → (next_reply_state state (end_reached paths)).reply_to ≡ some path
    → includes path paths ≡ true
unfolding next_reply_state drop_target_unless is_on_page
end_reached_on_page state paths path s e = elim (Bool-cases (is_on_page state.reply_to paths)) [
  | inr away ↦ absurd (ground (arith, s, away, e))
  | inl live ↦
      let about : state.reply_to ≡ some path = ground (arith, s, live, e) in
      ground (arith, about, live)
]
