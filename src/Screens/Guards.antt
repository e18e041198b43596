-- ===== src/Screens/Guards.antt =====
-- That a group has one guard for the life of the tab.
use undergroundbb.Base.{
  ℕ, ◌≡◌, refl, ap, List, [], ◌∷◌, some, Text, ◌===◌, ===_iff, arith, Bool-cases, Option-cases, inl,
  inr,
}
use undergroundbb.Screens.Members.{Guards, guard_of, rotation_guard_for}

-- The guards after those of some groups were asked for.
unfoldable pub look_up : List Text → Guards → Guards
look_up [] g = g
look_up (group ∷ groups) g = look_up groups (rotation_guard_for group g).1

-- Asking for a guard leaves the one of another lookup in place.
rotation_guard_for_keeps :
    (group other : Text) (g : Guards) (guard : ℕ)
    → guard_of group g.guards ≡ some guard
    → guard_of group (rotation_guard_for other g).1.guards ≡ some guard
unfolding rotation_guard_for guard_of
rotation_guard_for_keeps group other g guard e = elim (Option-cases (guard_of other g.guards)) [
  | inr (n, there) ↦ ground (arith, there, e)
  | inl absent ↦ elim (Bool-cases (other === group)) [
    | inr apart ↦ ground (arith, absent, apart, e)
    | inl same ↦
        absurd (cc (absent, e, ap (λ t. guard_of t g.guards) ((===_iff other group).0 same)))
  ]
]

look_up_keeps :
    (group : Text) (groups : List Text) (g : Guards) (guard : ℕ)
    → guard_of group g.guards ≡ some guard
    → guard_of group (look_up groups g).guards ≡ some guard
unfolding look_up
look_up_keeps group [] g guard e = e
look_up_keeps group (other ∷ groups) g guard e =
    look_up_keeps group groups (rotation_guard_for other g).1 guard
      (rotation_guard_for_keeps group other g guard e)

-- What is asked for stands in the map.
rotation_guard_for_stands :
    (group : Text) (g : Guards)
    → guard_of group (rotation_guard_for group g).1.guards ≡ some (rotation_guard_for group g).0
unfolding rotation_guard_for guard_of
rotation_guard_for_stands group g = elim (Option-cases (guard_of group g.guards)) [
  | inr (n, there) ↦ ground (arith, there)
  | inl absent ↦ ground (arith, absent, (===_iff group group).1 refl)
]

rotation_guard_for_found :
    (group : Text) (g : Guards) (guard : ℕ)
    → guard_of group g.guards ≡ some guard
    → (rotation_guard_for group g).0 ≡ guard
unfolding rotation_guard_for
rotation_guard_for_found group g guard e = ground (arith, e)

-- Whatever guards are asked for in between, a group's guard is the same one each time.
pub rotation_guard_for_stable :
    (group : Text) (groups : List Text) (g : Guards)
    → (rotation_guard_for group (look_up groups (rotation_guard_for group g).1)).0
      ≡ (rotation_guard_for group g).0
rotation_guard_for_stable group groups g = rotation_guard_for_found group _ _ (
    look_up_keeps group groups (rotation_guard_for group g).1 _ (rotation_guard_for_stands group g))
