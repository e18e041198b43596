-- ===== src/Screens/TakenBack.antt =====
-- A reaction that was taken back stays off the screen, and a page that was loaded is on it.
use undergroundbb.Base.{
  In-keep, any-In, ◌≡◌, refl, sym, ap, ◌∙◌, ◌⊎◌, inl, inr, Bool, true, false, not, List, [], ◌∷◌,
  ◌++◌, Option, Text, Bool-cases, In, first, later, any, every, keep, keep-In, ◌===◌, ===_iff,
  subst, map, and-eq_true,
}
use undergroundbb.Screens.Distinct.{
  includes, fresh, includes-In, In-map, In-append, fresh-In, fresh_keeps,
}
use undergroundbb.Screens.Thread.{
  ReactionView, ThreadState, ThreadEvent, load_started, reset, page_loaded, page, no_page,
  reaction_started, reaction_failed, reaction_target_gone, reaction_saved, reaction_removed, key_of,
  reaction_key, without, is_reaction, others, add_page, next_thread_state,
}
use undergroundbb.Screens.ThreadSound.{not-eq_true}

In-append_left : {A : Type 0} {x : A} (xs ys : List A) → In x xs → In x (xs ++ ys)
In-append_left [] ys m = elim m [ ]
In-append_left (z ∷ xs) ys (first e) = first e
In-append_left (z ∷ xs) ys (later m) = later (In-append_left xs ys m)

In-append_right : {A : Type 0} {x : A} (xs ys : List A) → In x ys → In x (xs ++ ys)
In-append_right [] ys m = m
In-append_right (z ∷ xs) ys m = later (In-append_right xs ys m)

map-In :
    {A : Type 0} (f : A → Text) (xs : List A) {k : Text}
    → In k (map f xs)
    → (x : A) × In x xs × (f x ≡ k)
map-In f [] m = elim m [ ]
map-In f (y ∷ xs) (first e) = (y, first refl, sym e)
map-In f (y ∷ xs) (later m) = let (x, n, e) = map-In f xs m in (x, later n, e)

includes-eq_true : (x : Text) (xs : List Text) → includes x xs ≡ true → In x xs
unfolding includes
includes-eq_true x xs e =
    let (y, m, same) = any-In (λ y. y === x) xs e in subst (λ z. In z xs) ((===_iff y x).0 same) m

nothing_banned : (x : Text) → includes x [] ≡ false
unfolding includes any
nothing_banned x = refl

-- The reaction is not on the screen, and its key is remembered as taken back.
record IsGone {Entry : Type 0} (target reactor : Text) (state : ThreadState Entry) : Type 0 where
  key : In (key_of target reactor) state.removed
  off : (x : ReactionView) → In x state.reactions → is_reaction target reactor x ≡ false

-- Neither starts the thread over nor saves a reaction with this key.
unfoldable pub is_quiet : {Entry : Type 0} → Text → ThreadEvent Entry → Bool
is_quiet key reset = false
is_quiet key (reaction_saved target reactor index) = not (key_of target reactor === key)
is_quiet key load_started = true
is_quiet key (page_loaded result) = true
is_quiet key (reaction_started target) = true
is_quiet key (reaction_failed target message) = true
is_quiet key (reaction_target_gone target message) = true
is_quiet key (reaction_removed target reactor) = true

-- The screen's reducer, over the events in their order.
unfoldable pub after_events :
    {Entry : Type 0}
    → (Entry → Text)
    → ThreadState Entry
    → List (ThreadEvent Entry)
    → ThreadState Entry
after_events path state [] = state
after_events path state (e ∷ es) = after_events path (next_thread_state path state e) es

is_reaction_key :
    (target reactor : Text) (x : ReactionView)
    → is_reaction target reactor x ≡ true
    → reaction_key x ≡ key_of target reactor
unfolding is_reaction reaction_key
is_reaction_key target reactor x e =
    let (targets, reactors) = and-eq_true (x.target === target) _ e in
    cc ((===_iff x.target target).0 targets, (===_iff x.reactor_user_id reactor).0 reactors)

-- The reactions that are kept from a page are not among those taken back.
fresh_off :
    (target reactor : Text) (have removed : List Text) (new : List ReactionView) (x : ReactionView)
    → In (key_of target reactor) removed
    → In x (fresh reaction_key have removed new)
    → is_reaction target reactor x ≡ false
fresh_off target reactor have removed new x taken m =
    elim (Bool-cases (is_reaction target reactor x)) [
      | inr other ↦ other
      | inl hit ↦ absurd (
          cc (
            (fresh-In reaction_key have removed new x m).1,
            includes-In (key_of target reactor) removed taken,
            ap (λ k. includes k removed) (is_reaction_key target reactor x hit),
          ))
    ]

-- Taking one key out of the list leaves the others.
In-without :
    (k other : Text) (xs : List Text) → In k xs → (other === k) ≡ false → In k (without other xs)
unfolding without
In-without k other xs m apart =
    In-keep (λ y. not (y === other)) xs m
      (elim (Bool-cases (k === other)) [
        | inr no_hit ↦ ap not no_hit
        | inl hit ↦ absurd (cc (apart, (===_iff other k).1 (sym ((===_iff k other).0 hit))))
      ])

module _ {Entry : Type 0} (path : Entry → Text) where
  removed-IsGone :
      (target reactor : Text) (state : ThreadState Entry)
      → IsGone target reactor (next_thread_state path state (reaction_removed target reactor))
  unfolding next_thread_state others
  removed-IsGone target reactor state = record {
    key = In-append_right (without (key_of target reactor) state.removed) _ (first refl);
    off = λ x m.
        not-eq_true _ (keep-In (λ y. not (is_reaction target reactor y)) state.reactions m).1;
  }

  next_thread_state-IsGone :
      (target reactor : Text) (state : ThreadState Entry) (event : ThreadEvent Entry)
      → is_quiet (key_of target reactor) event ≡ true
      → IsGone target reactor state
      → IsGone target reactor (next_thread_state path state event)
  unfolding next_thread_state add_page is_quiet others key_of reaction_key
  next_thread_state-IsGone target reactor state reset q g = cc
  next_thread_state-IsGone target reactor state load_started q g = record {
    key = g.key;
    off = g.off;
  }
  next_thread_state-IsGone target reactor state (reaction_started t) q g = record {
    key = g.key;
    off = g.off;
  }
  next_thread_state-IsGone target reactor state (reaction_target_gone t message) q g = record {
    key = g.key;
    off = g.off;
  }
  next_thread_state-IsGone target reactor state (reaction_failed t message) q g = record {
    key = g.key;
    off = g.off;
  }
  next_thread_state-IsGone target reactor state (page_loaded (no_page kind)) q g = record {
    key = g.key;
    off = g.off;
  }
  next_thread_state-IsGone target reactor state (page_loaded (page comments reactions next_cursor))
        q g =
      record {
        key = g.key;
        off = λ x m. elim (In-append state.reactions _ m) [
          | inl old ↦ g.off x old
          | inr new ↦
              fresh_off target reactor (map reaction_key state.reactions) state.removed reactions x
                g.key new
        ];
      }
  next_thread_state-IsGone target reactor state (reaction_removed t r) q g = record {
    key = elim (Bool-cases (key_of t r === key_of target reactor)) [
      | inl same ↦
          In-append_right (without (key_of t r) state.removed) _
            (first (sym ((===_iff (key_of t r) (key_of target reactor)).0 same)))
      | inr apart ↦
          In-append_left (without (key_of t r) state.removed) _
            (In-without (key_of target reactor) (key_of t r) state.removed g.key apart)
    ];
    off = λ x m. g.off x (keep-In (λ y. not (is_reaction t r y)) state.reactions m).0;
  }
  next_thread_state-IsGone target reactor state (reaction_saved t r index) q g = record {
    key = In-without (key_of target reactor) (key_of t r) state.removed g.key (not-eq_true _ q);
    off = λ x m. elim (In-append (keep (λ y. not (is_reaction t r y)) state.reactions) _ m) [
      | inl old ↦ g.off x (keep-In (λ y. not (is_reaction t r y)) state.reactions old).0
      | inr new ↦ elim new [
        | later none_left ↦ absurd (elim none_left [ ])
        | first is ↦ elim (Bool-cases (is_reaction target reactor x)) [
          | inr other ↦ other
          | inl hit ↦ absurd (
              cc (
                not-eq_true _ q,
                (===_iff (key_of t r) (key_of target reactor)).1
                    (sym (ap reaction_key is) ∙ is_reaction_key target reactor x hit),
              ))
        ]
      ]
    ];
  }

  after_events-IsGone :
      (target reactor : Text) (state : ThreadState Entry) (events : List (ThreadEvent Entry))
      → every (is_quiet (key_of target reactor)) events ≡ true
      → IsGone target reactor state
      → IsGone target reactor (after_events path state events)
  unfolding after_events every
  after_events-IsGone target reactor state [] q g = g
  after_events-IsGone target reactor state (e ∷ es) q g =
      let (quiet, rest) = and-eq_true (is_quiet (key_of target reactor) e) _ q in
      after_events-IsGone target reactor (next_thread_state path state e) es rest
        (next_thread_state-IsGone target reactor state e quiet g)

  -- From the moment the server accepted taking a reaction back, and until the thread starts over or a
  -- reaction with that key is saved, no state shows the reaction, whatever pages are loaded.
  pub taken_back_stays_off :
      (target reactor : Text) (state : ThreadState Entry) (events : List (ThreadEvent Entry))
      (x : ReactionView)
      → every (is_quiet (key_of target reactor)) events ≡ true
      → In x (after_events path state (reaction_removed target reactor ∷ events)).reactions
      → is_reaction target reactor x ≡ false
  unfolding after_events
  taken_back_stays_off target reactor state events x quiet m =
      (after_events-IsGone target reactor
          (next_thread_state path state (reaction_removed target reactor)) events quiet
          (removed-IsGone target reactor state)).off
        x m

  -- Once a page is loaded, each of its comments, and each that was shown before, is on the screen
  -- by its path.
  pub page_loaded_shows :
      (state : ThreadState Entry) (comments : List Entry) (reactions : List ReactionView)
      (next_cursor : Option Text) (c : Entry)
      → In c comments ⊎ In c state.comments
      → In (path c) (
          map path
            (next_thread_state path state
              (page_loaded (page comments reactions next_cursor))).comments)
  unfolding next_thread_state add_page
  page_loaded_shows state comments reactions next_cursor c (inr old) =
      In-map path _ (In-append_left state.comments _ old)
  page_loaded_shows state comments reactions next_cursor c (inl new) =
      let rest : List Entry = fresh path (map path state.comments) [] comments in
      elim (fresh_keeps path (map path state.comments) [] comments c new
        (nothing_banned (path c))) [
          | inl had ↦
              let (x, m, same) =
                map-In path state.comments
                  (includes-eq_true (path c) (map path state.comments) had) in
              subst (λ k. In k (map path (state.comments ++ rest))) same
                (In-map path (state.comments ++ rest) (In-append_left state.comments rest m))
          | inr kept ↦
              let (x, m, same) = map-In path rest kept in
              subst (λ k. In k (map path (state.comments ++ rest))) same
                (In-map path (state.comments ++ rest) (In-append_right state.comments rest m))
        ]
