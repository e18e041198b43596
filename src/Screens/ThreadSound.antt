-- ===== src/Screens/ThreadSound.antt =====
-- What holds of a thread however the screen got there.
use undergroundbb.Base.{
  ◌≡◌, refl, ap, ◌∙◌, inl, inr, Bool, true, false, not, List, [], ◌∷◌, ◌++◌, some, Text, Bool-cases,
  first, later, keep-In, ◌===◌, ===_iff, map, if◌then◌else◌, and-eq_true,
}
use undergroundbb.Screens.Distinct.{
  includes, fresh, includes-In, In-map, Distinct, empty, also, Distinct-append, Distinct-keep,
  fresh-In, fresh-Distinct,
}
use undergroundbb.Screens.Thread.{
  ReactionView, ThreadState, ThreadEvent, load_started, reset, page_loaded, page, no_page,
  reaction_started, reaction_failed, reaction_target_gone, reaction_saved, reaction_removed,
  initial_thread_state, reaction_key, without, is_reaction, others, add_page, next_thread_state,
}

unfoldable pub same_reaction : ReactionView → ReactionView → Bool
same_reaction x y = is_reaction y.target y.reactor_user_id x

unfoldable pub same_path : {Entry : Type 0} → (Entry → Text) → Entry → Entry → Bool
same_path path x y = path x === path y

same_reaction_key :
    (x y : ReactionView) → same_reaction x y ≡ true → reaction_key x ≡ reaction_key y
unfolding same_reaction is_reaction reaction_key
same_reaction_key x y e =
    let (targets, reactors) = and-eq_true (x.target === y.target) _ e in
    let t = (===_iff x.target y.target).0 targets in
    let r = (===_iff x.reactor_user_id y.reactor_user_id).0 reactors in cc (t, r)

pub not-eq_true : (b : Bool) → not b ≡ true → b ≡ false
not-eq_true true e = cc
not-eq_true false e = refl

Distinct-one : {A : Type 0} (same : A → A → Bool) (x : A) → Distinct same (x ∷ [])
Distinct-one same x = also (λ y m. elim m [ ]) empty

-- No comment, by its path, no reaction, by its target and its reactor, and no target of a reaction
-- being saved stands twice.
pub record IsOrderly {Entry : Type 0} (path : Entry → Text) (state : ThreadState Entry)
    : Type 0 where
  pub comments : Distinct (same_path path) state.comments
  pub reactions : Distinct same_reaction state.reactions
  pub reacting : Distinct ◌===◌ state.reacting

Distinct-without : (x : Text) (xs : List Text) → Distinct ◌===◌ xs → Distinct ◌===◌ (without x xs)
unfolding without
Distinct-without x xs d = Distinct-keep ◌===◌ _ xs d

Distinct-start :
    (x : Text) (xs : List Text)
    → Distinct ◌===◌ xs
    → Distinct ◌===◌ (if includes x xs then xs else xs ++ (x ∷ []))
Distinct-start x xs d = elim (Bool-cases (includes x xs)) [
  | inl there ↦ rw there d
  | inr new ↦ rw new (
      Distinct-append ◌===◌ xs (x ∷ []) d (Distinct-one ◌===◌ x) (λ y z m n. elim n [
        | later none_left ↦ absurd (elim none_left [ ])
        | first is ↦ elim (Bool-cases (y === z)) [
          | inr apart ↦ apart
          | inl hit ↦ absurd (
              cc (
                new,
                includes-In y xs m,
                (===_iff y z).0 hit,
                is,
                ap (λ k. includes k xs) ((===_iff y z).0 hit ∙ is),
              ))
        ]
      ]))
]

Distinct-saved :
    (new : ReactionView) (xs : List ReactionView)
    → Distinct same_reaction xs
    → Distinct same_reaction (others new.target new.reactor_user_id xs ++ (new ∷ []))
unfolding others same_reaction
Distinct-saved new xs d =
    Distinct-append same_reaction (others new.target new.reactor_user_id xs) (new ∷ [])
      (Distinct-keep same_reaction _ xs d) (Distinct-one same_reaction new)
      (λ x y m n. elim n [
        | later none_left ↦ absurd (elim none_left [ ])
        | first is ↦
            ap (λ z. is_reaction z.target z.reactor_user_id x) is
            ∙ not-eq_true _
                (keep-In (λ z. not (is_reaction new.target new.reactor_user_id z)) xs m).1
      ])

Distinct-page :
    {A : Type 0} (same : A → A → Bool) (key : A → Text) (old new : List A) (banned : List Text)
    → ((x y : A) → same x y ≡ true → key x ≡ key y)
    → Distinct same old
    → Distinct same (old ++ fresh key (map key old) banned new)
Distinct-page same key old new banned alike d =
    Distinct-append same old (fresh key (map key old) banned new) d
      (fresh-Distinct key same alike (map key old) banned new)
      (λ x y m n. elim (Bool-cases (same x y)) [
        | inr apart ↦ apart
        | inl hit ↦ absurd (
            cc (
              (fresh-In key (map key old) banned new y n).0,
              includes-In (key x) (map key old) (In-map key old m),
              ap (λ k. includes k (map key old)) (alike x y hit),
            ))
      ])

module _ {Entry : Type 0} (path : Entry → Text) where
  -- A state that the screen can be in.
  pub data Reachable : ThreadState Entry → Type 0 where
    initially : Reachable (initial_thread_state Entry)
    next :
        {state : ThreadState Entry}
        → Reachable state
        → (event : ThreadEvent Entry) → Reachable (next_thread_state path state event)

  next_thread_state-IsOrderly :
      (state : ThreadState Entry) (event : ThreadEvent Entry)
      → IsOrderly path state
      → IsOrderly path (next_thread_state path state event)
  unfolding next_thread_state initial_thread_state add_page same_path others
  next_thread_state-IsOrderly state reset o = record {
    comments = empty;
    reactions = empty;
    reacting = o.reacting;
  }
  next_thread_state-IsOrderly state load_started o = record {
    comments = o.comments;
    reactions = o.reactions;
    reacting = o.reacting;
  }
  next_thread_state-IsOrderly state (reaction_started target) o = record {
    comments = o.comments;
    reactions = o.reactions;
    reacting = Distinct-start target state.reacting o.reacting;
  }
  next_thread_state-IsOrderly state (reaction_target_gone target message) o = record {
    comments = o.comments;
    reactions = o.reactions;
    reacting = Distinct-without target state.reacting o.reacting;
  }
  next_thread_state-IsOrderly state (reaction_failed target message) o = record {
    comments = o.comments;
    reactions = o.reactions;
    reacting = Distinct-without target state.reacting o.reacting;
  }
  next_thread_state-IsOrderly state (reaction_saved target reactor index) o = record {
    comments = o.comments;
    reactions =
        Distinct-saved (record { target = target; reactor_user_id = reactor; index = some index })
          state.reactions o.reactions;
    reacting = Distinct-without target state.reacting o.reacting;
  }
  next_thread_state-IsOrderly state (reaction_removed target reactor) o = record {
    comments = o.comments;
    reactions = Distinct-keep same_reaction _ state.reactions o.reactions;
    reacting = Distinct-without target state.reacting o.reacting;
  }
  next_thread_state-IsOrderly state (page_loaded (no_page kind)) o = record {
    comments = o.comments;
    reactions = o.reactions;
    reacting = o.reacting;
  }
  next_thread_state-IsOrderly state (page_loaded (page comments reactions next_cursor)) o = record {
    comments =
        Distinct-page (same_path path) path state.comments comments []
          (λ x y e. (===_iff (path x) (path y)).0 e) o.comments;
    reactions =
        Distinct-page same_reaction reaction_key state.reactions reactions state.removed
          same_reaction_key o.reactions;
    reacting = o.reacting;
  }

  -- In every state that the screen can reach, no comment is shown twice, no user has two reactions
  -- on one target, and no target is listed twice as being saved.
  pub Reachable-IsOrderly : (state : ThreadState Entry) → Reachable state → IsOrderly path state
  unfolding initial_thread_state
  Reachable-IsOrderly state initially = record {
    comments = empty;
    reactions = empty;
    reacting = empty;
  }
  Reachable-IsOrderly state (next r event) =
      next_thread_state-IsOrderly _ event (Reachable-IsOrderly _ r)
