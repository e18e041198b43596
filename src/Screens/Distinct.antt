-- ===== src/Screens/Distinct.antt =====
-- Lists without two alike, and the filter that keeps what a growing set has not seen.
use undergroundbb.Base.{
  ◌∙◌, map, ◌≡◌, refl, sym, ap, ◌⊎◌, inl, inr, Bool, true, false, ◌||◌, List, [], ◌∷◌, ◌++◌, arith,
  Text, Bool-cases, In, first, later, any, keep, keep-In, ◌===◌, ===_iff, subst,
}

-- `xs.includes(x)`, and `has` of a set that is listed.
unfoldable pub includes : Text → List Text → Bool
includes x xs = any (λ y. y === x) xs

-- `xs.filter((x) => …)`, which drops an `x` whose key is in `have`, which it then joins, or in
-- `banned`.
unfoldable pub fresh {ℓ} : {A : Type ℓ} → (A → Text) → List Text → List Text → List A → List A
fresh key have banned [] = []
fresh key have banned (x ∷ xs) = elim (includes (key x) have || includes (key x) banned) [
  | true ↦ fresh key have banned xs
  | false ↦ x ∷ fresh key (key x ∷ have) banned xs
]

pub includes-In : (x : Text) (xs : List Text) → In x xs → includes x xs ≡ true
unfolding includes any
includes-In x [] m = elim m [ ]
includes-In x (y ∷ xs) (first e) = ground (arith, (===_iff y x).1 (sym e))
includes-In x (y ∷ xs) (later m) = ground (arith, includes-In x xs m)

pub In-map {ℓ} : {A : Type ℓ} (f : A → Text) (xs : List A) {x : A} → In x xs → In (f x) (map f xs)
In-map f [] m = elim m [ ]
In-map f (y ∷ xs) (first e) = first (ap f e)
In-map f (y ∷ xs) (later m) = later (In-map f xs m)

pub In-append {ℓ} : {A : Type ℓ} (xs ys : List A) {x : A} → In x (xs ++ ys) → In x xs ⊎ In x ys
In-append [] ys m = inr m
In-append (y ∷ xs) ys (first e) = inl (first e)
In-append (y ∷ xs) ys (later m) = elim (In-append xs ys m) [ inl a ↦ inl (later a) | inr b ↦ inr b ]

module _ {ℓ} {A : Type ℓ} (same : A → A → Bool) where
  pub data Distinct : List A → Type ℓ where
    empty : Distinct []
    also :
        {x : A} {xs : List A}
        → ((y : A) → In y xs → same x y ≡ false)
        → Distinct xs
        → Distinct (x ∷ xs)

  pub Distinct-append :
      (xs ys : List A)
      → Distinct xs
      → Distinct ys
      → ((x y : A) → In x xs → In y ys → same x y ≡ false)
      → Distinct (xs ++ ys)
  Distinct-append [] ys dx dy across = dy
  Distinct-append (x ∷ xs) ys (also here dx) dy across =
      also
        (λ y m. elim (In-append xs ys m) [ inl a ↦ here y a | inr b ↦ across x y (first refl) b ])
        (Distinct-append xs ys dx dy (λ x' y m. across x' y (later m)))

  pub Distinct-keep : (p : A → Bool) (xs : List A) → Distinct xs → Distinct (keep p xs)
  unfolding keep
  Distinct-keep p [] empty = empty
  Distinct-keep p (x ∷ xs) (also here d) = elim (Bool-cases (p x)) [
    | inl kept ↦ rw kept (also (λ y m. here y (keep-In p xs m).0) (Distinct-keep p xs d))
    | inr dropped ↦ rw dropped (Distinct-keep p xs d)
  ]

or-eq_false : (a b : Bool) → (a || b) ≡ false → (a ≡ false) × (b ≡ false)
or-eq_false true b e = cc
or-eq_false false b e = (refl, e)

module _ {ℓ} {A : Type ℓ} (key : A → Text) where
  fresh_skips :
      (have banned : List Text) (y : A) (xs : List A)
      → (includes (key y) have || includes (key y) banned) ≡ true
      → fresh key have banned (y ∷ xs) ≡ fresh key have banned xs
  unfolding fresh
  fresh_skips have banned y xs e = ground (arith, e)

  fresh_takes :
      (have banned : List Text) (y : A) (xs : List A)
      → (includes (key y) have || includes (key y) banned) ≡ false
      → fresh key have banned (y ∷ xs) ≡ y ∷ fresh key (key y ∷ have) banned xs
  unfolding fresh
  fresh_takes have banned y xs e = ground (arith, e)

  pub fresh-In :
      (have banned : List Text) (xs : List A) (x : A)
      → In x (fresh key have banned xs)
      → (includes (key x) have ≡ false) × (includes (key x) banned ≡ false)
  unfolding fresh includes any
  fresh-In have banned [] x m = elim m [ ]
  fresh-In have banned (y ∷ xs) x m =
      elim (Bool-cases (includes (key y) have || includes (key y) banned)) [
        | inl blocked ↦
            fresh-In have banned xs x (subst (In x) (fresh_skips have banned y xs blocked) m)
        | inr passes ↦ elim (subst (In x) (fresh_takes have banned y xs passes) m) [
          | first e ↦
              let (not_had, allowed) = or-eq_false (includes (key y) have) _ passes in
              (
                ap (λ z. includes (key z) have) e ∙ not_had,
                ap (λ z. includes (key z) banned) e ∙ allowed,
              )
          | later m' ↦
              let (unseen, allowed) = fresh-In (key y ∷ have) banned xs x m' in
              ((or-eq_false (key y === key x) _ unseen).1, allowed)
        ]
      ]

  -- What the filter keeps has keys that differ from one another.
  pub fresh-Distinct :
      (same : A → A → Bool)
      → ((x y : A) → same x y ≡ true → key x ≡ key y)
      → (have banned : List Text) (xs : List A) → Distinct same (fresh key have banned xs)
  unfolding fresh includes any
  fresh-Distinct same alike have banned [] = empty
  fresh-Distinct same alike have banned (y ∷ xs) =
      elim (Bool-cases (includes (key y) have || includes (key y) banned)) [
        | inl blocked ↦
            subst (Distinct same) (sym (fresh_skips have banned y xs blocked))
              (fresh-Distinct same alike have banned xs)
        | inr passes ↦ subst (Distinct same) (sym (fresh_takes have banned y xs passes)) (
            also
              (λ x m.
                let unseen : (key y === key x) ≡ false =
                  (or-eq_false (key y === key x) _ (fresh-In (key y ∷ have) banned xs x m).0).0 in
                elim (Bool-cases (same y x)) [
                  | inl hit ↦ absurd (cc (unseen, (===_iff (key y) (key x)).1 (alike y x hit)))
                  | inr miss ↦ miss
                ])
              (fresh-Distinct same alike (key y ∷ have) banned xs))
      ]

  -- Every key of the list is had already, banned, or kept.
  pub fresh_keeps :
      (have banned : List Text) (xs : List A) (x : A)
      → In x xs
      → includes (key x) banned ≡ false
      → (includes (key x) have ≡ true) ⊎ In (key x) (map key (fresh key have banned xs))
  unfolding includes any
  fresh_keeps have banned [] x m allowed = elim m [ ]
  fresh_keeps have banned (y ∷ xs) x m allowed =
      elim (Bool-cases (includes (key y) have || includes (key y) banned)) [
        | inl blocked ↦
            subst (λ l. (includes (key x) have ≡ true) ⊎ In (key x) (map key l))
              (sym (fresh_skips have banned y xs blocked))
              (elim m [
                | later m' ↦ fresh_keeps have banned xs x m' allowed
                | first e ↦ inl (
                    ground (
                      arith,
                      blocked,
                      allowed,
                      ap (λ z. includes (key z) have) e,
                      ap (λ z. includes (key z) banned) e,
                    ))
              ])
        | inr passes ↦
            subst (λ l. (includes (key x) have ≡ true) ⊎ In (key x) (map key l))
              (sym (fresh_takes have banned y xs passes))
              (elim m [
                | first e ↦ inr (first (ap key e))
                | later m' ↦ elim (fresh_keeps (key y ∷ have) banned xs x m' allowed) [
                  | inr kept ↦ inr (later kept)
                  | inl had ↦ elim (Bool-cases (key y === key x)) [
                    | inl same ↦ inr (first (sym ((===_iff (key y) (key x)).0 same)))
                    | inr apart ↦ inl (ground (arith, apart, had))
                  ]
                ]
              ])
      ]
