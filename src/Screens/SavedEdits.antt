-- ===== src/Screens/SavedEdits.antt =====
-- savedEdits.ts: the open edit forms, kept across the password step.
use undergroundbb.Base.{
  inr, subst, sym, inl, Bool-cases, ◌≢◌, ◌⊎◌, arith, ===_iff, ◌≡◌, refl, true, false, Option, none,
  some, Text, ◌===◌, if◌then◌else◌, ◌>>=◌,
}
use undergroundbb.Screens.Comments.{ControlMode, ControlsState, initial_controls_state}
use undergroundbb.Screens.Posts.{PostControlMode, PostControlsState, initial_post_controls_state}

-- A mode that is kept is one of editing.
pub record SavedEdits : Type 0 where
  pub scope : Text
  pub comment : Option ControlMode
  pub post : Option PostControlMode

unfoldable pub editing_comment : ControlMode → Option ControlMode
editing_comment ControlMode.idle = none
editing_comment (ControlMode.editing path draft original) =
    some (ControlMode.editing path draft original)
editing_comment (ControlMode.confirm_delete path) = none

unfoldable pub editing_post : PostControlMode → Option PostControlMode
editing_post PostControlMode.idle = none
editing_post (PostControlMode.editing sort_key title body draft) =
    some (PostControlMode.editing sort_key title body draft)
editing_post (PostControlMode.confirm_delete sort_key) = none

unfoldable pub saved_edits : Text → Option ControlMode → Option PostControlMode → Option SavedEdits
saved_edits scope none none = none
saved_edits scope (some c) p = some (record { scope = scope; comment = some c; post = p })
saved_edits scope none (some p) = some (record { scope = scope; comment = none; post = some p })

unfoldable pub snapshot_edits : Text → Option ControlMode → PostControlMode → Option SavedEdits
snapshot_edits scope comment post =
    saved_edits scope (comment >>= editing_comment) (editing_post post)

-- `saved.comment !== undefined ? { …, mode: saved.comment } : …`
unfoldable pub controls_in : Option ControlMode → ControlsState
controls_in none = initial_controls_state
controls_in (some mode) = record initial_controls_state { mode = mode }

unfoldable pub post_controls_in : Option PostControlMode → PostControlsState
post_controls_in none = initial_post_controls_state
post_controls_in (some mode) = record initial_post_controls_state { mode = mode }

unfoldable pub restored_comment_controls : Option SavedEdits → Text → ControlsState
restored_comment_controls none scope = initial_controls_state
restored_comment_controls (some saved) scope =
    if saved.scope === scope then controls_in saved.comment else initial_controls_state

unfoldable pub restored_post_controls : Option SavedEdits → Text → PostControlsState
restored_post_controls none scope = initial_post_controls_state
restored_post_controls (some saved) scope =
    if saved.scope === scope then post_controls_in saved.post else initial_post_controls_state

-- The controls with nothing but the mode.
abbrev with_mode : ControlMode → ControlsState
with_mode mode = record { mode = mode; busy = false; error = none; gone = false; read_only = false }

abbrev with_post_mode : PostControlMode → PostControlsState
with_post_mode mode = record { mode = mode; busy = false; error = none; gone = false }

-- What comes back of the comment controls, by the mode they had, if there were any: the form with its
-- path, what was typed in it and the original, and nothing of a question whether to delete.
pub data CommentComesBack : Option ControlMode → ControlsState → Type 0 where
  absent : CommentComesBack none (with_mode ControlMode.idle)
  at_rest : CommentComesBack (some ControlMode.idle) (with_mode ControlMode.idle)
  asking :
      {path : Text}
      → CommentComesBack (some (ControlMode.confirm_delete path)) (with_mode ControlMode.idle)
  typing :
      {path draft original : Text}
      → CommentComesBack
          (some (ControlMode.editing path draft original))
          (with_mode (ControlMode.editing path draft original))

pub data PostComesBack : PostControlMode → PostControlsState → Type 0 where
  at_rest : PostComesBack PostControlMode.idle (with_post_mode PostControlMode.idle)
  asking :
      {sort_key : Text}
      → PostComesBack
          (PostControlMode.confirm_delete sort_key)
          (with_post_mode PostControlMode.idle)
  typing :
      {sort_key title body : Text} {draft : Option (Text × Text)}
      → PostComesBack
          (PostControlMode.editing sort_key title body draft)
          (with_post_mode (PostControlMode.editing sort_key title body draft))

===_refl : (x : Text) → (x === x) ≡ true
===_refl x = (===_iff x x).1 refl

comment_comes_back :
    (scope : Text) (comment : Option ControlMode) (p : Option PostControlMode)
    → CommentComesBack comment
        (restored_comment_controls (saved_edits scope (comment >>= editing_comment) p) scope)
unfolding restored_comment_controls saved_edits controls_in editing_comment initial_controls_state
comment_comes_back scope none none = CommentComesBack.absent
comment_comes_back scope none (some p) = rw (===_refl scope) CommentComesBack.absent
comment_comes_back scope (some ControlMode.idle) none = CommentComesBack.at_rest
comment_comes_back scope (some ControlMode.idle) (some p) =
    rw (===_refl scope) CommentComesBack.at_rest
comment_comes_back scope (some (ControlMode.confirm_delete path)) none = CommentComesBack.asking
comment_comes_back scope (some (ControlMode.confirm_delete path)) (some p) =
    rw (===_refl scope) CommentComesBack.asking
comment_comes_back scope (some (ControlMode.editing path draft original)) p =
    rw (===_refl scope) CommentComesBack.typing

post_comes_back :
    (scope : Text) (c : Option ControlMode) (post : PostControlMode)
    → PostComesBack post (restored_post_controls (saved_edits scope c (editing_post post)) scope)
unfolding restored_post_controls saved_edits post_controls_in editing_post
    initial_post_controls_state
post_comes_back scope none PostControlMode.idle = PostComesBack.at_rest
post_comes_back scope (some c) PostControlMode.idle = rw (===_refl scope) PostComesBack.at_rest
post_comes_back scope none (PostControlMode.confirm_delete k) = PostComesBack.asking
post_comes_back scope (some c) (PostControlMode.confirm_delete k) =
    rw (===_refl scope) PostComesBack.asking
post_comes_back scope none (PostControlMode.editing k title body draft) =
    rw (===_refl scope) PostComesBack.typing
post_comes_back scope (some c) (PostControlMode.editing k title body draft) =
    rw (===_refl scope) PostComesBack.typing

nothing_elsewhere :
    (scope other : Text) (c : Option ControlMode) (p : Option PostControlMode)
    → (scope === other) ≡ false
    → (restored_comment_controls (saved_edits scope c p) other ≡ with_mode ControlMode.idle)
      × (restored_post_controls (saved_edits scope c p) other ≡ with_post_mode PostControlMode.idle)
unfolding restored_comment_controls restored_post_controls saved_edits initial_controls_state
    initial_post_controls_state
nothing_elsewhere scope other none none apart = (refl, refl)
nothing_elsewhere scope other (some c) p apart = ground (arith, apart)
nothing_elsewhere scope other none (some p) apart = ground (arith, apart)

-- A screen that comes back in the same scope has the edit forms that were open, each with what was
-- typed in it and nothing else of the state; a screen of another scope has none.
pub edits_survive :
    (scope other : Text) (comment : Option ControlMode) (post : PostControlMode)
    → ((other ≡ scope)
        × CommentComesBack comment
            (restored_comment_controls (snapshot_edits scope comment post) other)
        × PostComesBack post (restored_post_controls (snapshot_edits scope comment post) other))
      ⊎ ((other ≢ scope)
          × (restored_comment_controls (snapshot_edits scope comment post) other
              ≡ with_mode ControlMode.idle)
          × (restored_post_controls (snapshot_edits scope comment post) other
              ≡ with_post_mode PostControlMode.idle))
unfolding snapshot_edits
edits_survive scope other comment post =
    let saved = saved_edits scope (comment >>= editing_comment) (editing_post post) in
    elim (Bool-cases (scope === other)) [
      | inl hit ↦
          let same : scope ≡ other = (===_iff scope other).0 hit in
          inl (
            sym same,
            subst (λ o. CommentComesBack comment (restored_comment_controls saved o)) same
                (comment_comes_back scope comment (editing_post post)),
            subst (λ o. PostComesBack post (restored_post_controls saved o)) same
                (post_comes_back scope (comment >>= editing_comment) post),
          )
      | inr apart ↦
          let (comments, posts) =
            nothing_elsewhere scope other (comment >>= editing_comment) (editing_post post) apart in
          inr ((λ same. cc (apart, (===_iff scope other).1 (sym same))), comments, posts)
    ]
