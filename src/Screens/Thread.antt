-- ===== src/Screens/Thread.antt =====
-- threadState.ts: what the thread screen is showing. Of an entry of the thread only the path is read.
use undergroundbb.Grant.Records.{Number}
use undergroundbb.Base.{
  Bool, true, false, not, ◌&&◌, List, [], ◌∷◌, ◌++◌, Option, none, some, Text, codes, ◌===◌,
  if◌then◌else◌, keep, map,
}
use undergroundbb.Screens.Distinct.{includes, fresh}

pub record ReactionView : Type 0 where
  pub target : Text
  pub reactor_user_id : Text
  pub index : Option Number

pub data ThreadFailure : Type 0 where
  not_found auth_required cold_keys chain failed : ThreadFailure

module _ (Entry : Type 0) where
  pub data ThreadPageResult : Type 0 where
    page : List Entry → List ReactionView → Option Text → ThreadPageResult
    no_page : ThreadFailure → ThreadPageResult

  pub record ThreadState : Type 0 where
    pub comments : List Entry
    pub cursor : Option Text
    pub loading : Bool
    pub failure : Option ThreadFailure
    pub reactions : List ReactionView
    pub loaded : Bool
    pub removed : List Text
    pub reacting : List Text
    pub reaction_error : Option (Text × Text)
    pub notice : Option Text

  pub data ThreadEvent : Type 0 where
    load_started reset : ThreadEvent
    page_loaded : ThreadPageResult → ThreadEvent
    reaction_started : Text → ThreadEvent
    reaction_failed reaction_target_gone : Text → Text → ThreadEvent
    -- The target, the reactor and the index.
    reaction_saved : Text → Text → Number → ThreadEvent
    reaction_removed : Text → Text → ThreadEvent

  unfoldable pub initial_thread_state : ThreadState
  initial_thread_state = record {
    comments = [];
    cursor = none;
    loading = true;
    failure = none;
    reactions = [];
    loaded = false;
    removed = [];
    reacting = [];
    reaction_error = none;
    notice = none;
  }

unfoldable pub key_of : Text → Text → Text
key_of target reactor = target ++ (codes "|" ++ reactor)

unfoldable pub reaction_key : ReactionView → Text
reaction_key x = key_of x.target x.reactor_user_id

unfoldable pub without : Text → List Text → List Text
without x = keep (λ y. not (y === x))

-- `x.target === event.target && x.reactorUserId === event.reactorUserId`
unfoldable pub is_reaction : Text → Text → ReactionView → Bool
is_reaction target reactor x = x.target === target && x.reactor_user_id === reactor

unfoldable pub others : Text → Text → List ReactionView → List ReactionView
others target reactor = keep (λ x. not (is_reaction target reactor x))

module _ {Entry : Type 0} (path : Entry → Text) where
  unfoldable pub add_page :
      ThreadState Entry → List Entry → List ReactionView → Option Text → ThreadState Entry
  add_page state comments reactions next_cursor = record state {
    comments = state.comments ++ fresh path (map path state.comments) [] comments;
    reactions =
        state.reactions
        ++ fresh reaction_key (map reaction_key state.reactions) state.removed reactions;
    loaded = true;
    cursor = next_cursor;
    loading = false;
    failure = none;
  }

  unfoldable pub next_thread_state : ThreadState Entry → ThreadEvent Entry → ThreadState Entry
  next_thread_state state reset = record (initial_thread_state Entry) {
    notice = state.notice;
    reacting = state.reacting;
  }
  next_thread_state state load_started = record state { loading = true; failure = none }
  next_thread_state state (reaction_started target) = record state {
    reacting =
        if includes target state.reacting then state.reacting else state.reacting ++ (target ∷ []);
    reaction_error = none;
    notice = none;
  }
  next_thread_state state (reaction_target_gone target message) = record state {
    reacting = without target state.reacting;
    reaction_error = none;
    notice = some message;
  }
  next_thread_state state (reaction_failed target message) = record state {
    reacting = without target state.reacting;
    reaction_error = some (target, message);
  }
  next_thread_state state (reaction_saved target reactor index) = record state {
    removed = without (key_of target reactor) state.removed;
    reactions =
        others target reactor state.reactions
        ++ (record { target = target; reactor_user_id = reactor; index = some index } ∷ []);
    reacting = without target state.reacting;
    reaction_error = none;
  }
  next_thread_state state (reaction_removed target reactor) = record state {
    removed = without (key_of target reactor) state.removed ++ (key_of target reactor ∷ []);
    reactions = others target reactor state.reactions;
    reacting = without target state.reacting;
    reaction_error = none;
  }
  next_thread_state state (page_loaded (no_page kind)) = record state {
    loading = false;
    failure = some kind;
  }
  next_thread_state state (page_loaded (page comments reactions next_cursor)) =
      add_page state comments reactions next_cursor

-- `failure === 'failed' || failure === 'chain'`
unfoldable pub can_retry_failure : Option ThreadFailure → Bool
can_retry_failure (some failed) = true
can_retry_failure (some chain) = true
can_retry_failure (some not_found) = false
can_retry_failure (some auth_required) = false
can_retry_failure (some cold_keys) = false
can_retry_failure none = false
