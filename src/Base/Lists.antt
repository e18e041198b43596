-- ===== src/Base/Lists.antt =====
-- Lists measured and indexed by native numbers, with the array methods that the program calls.
use Prim.Native.Nat.{◌-◌, ℕ, zero, suc, ◌+◌}
use mathlib.Core.Path.{sym, ◌∙◌, ap, ◌≡◌, refl}
use mathlib.Core.Bool.{Bool, true, false, ◌&&◌, ◌||◌}
use mathlib.Core.List.{List, [], ◌∷◌, ◌++◌}
use mathlib.Core.Option.{Option, none, some}
use native.Mathlib.Omega.{arith}
use mathlib.Core.Logic.{inl, inr}
use undergroundbb.Base.Tests.{ltb, if◌then◌else◌, Bool-cases}

module _ {ℓ} {A : Type ℓ} where
  abbrev pub length : List A → ℕ
  length [] = 0
  length (x ∷ xs) = suc (length xs)

  abbrev pub take : ℕ → List A → List A
  take zero xs = []
  take (suc n) [] = []
  take (suc n) (x ∷ xs) = x ∷ take n xs

  abbrev pub drop : ℕ → List A → List A
  drop zero xs = xs
  drop (suc n) [] = []
  drop (suc n) (x ∷ xs) = drop n xs

  -- The array methods `some`, `every`, `filter` and `find`.
  unfoldable pub any : (A → Bool) → List A → Bool
  any p [] = false
  any p (x ∷ xs) = p x || any p xs

  unfoldable pub every : (A → Bool) → List A → Bool
  every p [] = true
  every p (x ∷ xs) = p x && every p xs

  unfoldable pub keep : (A → Bool) → List A → List A
  keep p [] = []
  keep p (x ∷ xs) = let rest = keep p xs in if p x then x ∷ rest else rest

  unfoldable pub find : (A → Bool) → List A → Option A
  find p [] = none
  find p (x ∷ xs) = let rest = find p xs in if p x then some x else rest

  pub length-append : (xs ys : List A) → length (xs ++ ys) ≡ length xs + length ys
  length-append [] ys = omega arith
  length-append (x ∷ xs) ys = omega (arith, length-append xs ys)

  pub take-drop : (n : ℕ) (xs : List A) → take n xs ++ drop n xs ≡ xs
  take-drop zero xs = refl
  take-drop (suc n) [] = refl
  take-drop (suc n) (x ∷ xs) = ap (λ l. x ∷ l) (take-drop n xs)

  pub length-drop : (n : ℕ) (xs : List A) → length (drop n xs) ≡ length xs - n
  length-drop zero xs = omega arith
  length-drop (suc n) [] = omega arith
  length-drop (suc n) (x ∷ xs) = omega (arith, length-drop n xs)

module _ {ℓ κ} {A : Type ℓ} (P : A → Type κ) where
  abbrev pub All : List A → Type κ
  All [] = Unit
  All (x ∷ xs) = P x × All xs

-- `x` stands in the list.
pub data In {ℓ} {A : Type ℓ} (x : A) : List A → Type ℓ where
  first : {y : A} {ys : List A} → x ≡ y → In x (y ∷ ys)
  later : {y : A} {ys : List A} → In x ys → In x (y ∷ ys)

module _ {ℓ} {A : Type ℓ} where
  -- What `some` found.
  pub any-In : (p : A → Bool) (xs : List A) → any p xs ≡ true → (x : A) × In x xs × (p x ≡ true)
  unfolding any
  any-In p [] h = cc
  any-In p (x ∷ xs) h = elim (Bool-cases (p x)) [
    | inl e ↦ (x, first refl, e)
    | inr e ↦ let (y, m, py) = any-In p xs (ground arith) in (y, later m, py)
  ]

  -- `every` holds of each element.
  pub every-In : (p : A → Bool) (xs : List A) {x : A} → every p xs ≡ true → In x xs → p x ≡ true
  unfolding every
  every-In p [] h m = elim m [ ]
  every-In p (y ∷ ys) h (first e) = rw e (ground arith)
  every-In p (y ∷ ys) h (later m) = every-In p ys (ground arith) m

  keep-In_head :
      (p : A → Bool) (y : A) (ys : List A) {x : A}
      → p y ≡ true
      → (In x (keep p ys) → In x ys × (p x ≡ true))
      → In x (y ∷ keep p ys)
      → In x (y ∷ ys) × (p x ≡ true)
  keep-In_head p y ys e ih (first q) = (first q, rw q e)
  keep-In_head p y ys e ih (later m) = (later (ih m).0, (ih m).1)

  pub In-keep : (p : A → Bool) (xs : List A) {x : A} → In x xs → p x ≡ true → In x (keep p xs)
  unfolding keep
  In-keep p [] m e = elim m [ ]
  In-keep p (y ∷ ys) {x} (first same) e =
      let front : In x (y ∷ keep p ys) = first same in rw (ap p (sym same) ∙ e) front
  In-keep p (y ∷ ys) {x} (later m) e = elim (Bool-cases (p y)) [
    | inl hit ↦ let kept : In x (y ∷ keep p ys) = later (In-keep p ys m e) in rw hit kept
    | inr miss ↦ rw miss (In-keep p ys m e)
  ]

  -- Two members of a list of one member at most.
  pub single : (xs : List A) {x y : A} → ltb 1 (length xs) ≡ false → In x xs → In y xs → x ≡ y
  single [] e m n = elim m [ ]
  single (z ∷ []) e (first same) (first same') = same ∙ sym same'
  single (z ∷ []) e (later m) n = elim m [ ]
  single (z ∷ []) e m (later n) = elim n [ ]
  single (z ∷ w ∷ xs) e m n = absurd (ground (arith, e))

  pub keep-In : (p : A → Bool) (xs : List A) {x : A} → In x (keep p xs) → In x xs × (p x ≡ true)
  unfolding keep
  keep-In p [] m = elim m [ ]
  keep-In p (y ∷ ys) m = elim (Bool-cases (p y)) [
    | inl e ↦ keep-In_head p y ys e (keep-In p ys) (rw e at m)
    | inr e ↦ let (k, q) = keep-In p ys (rw e at m) in (later k, q)
  ]

  -- What `find` found.
  pub find-In : (p : A → Bool) (xs : List A) {x : A} → find p xs ≡ some x → In x xs × (p x ≡ true)
  unfolding find
  find-In p [] e = cc
  find-In p (y ∷ ys) e = elim (Bool-cases (p y)) [
    | inl hit ↦ let same : some y ≡ some _ = rw hit at e in (first (cc same), rw (← hit) (cc same))
    | inr miss ↦ let (m, q) = find-In p ys (rw miss at e) in (later m, q)
  ]
