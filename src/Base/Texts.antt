-- ===== src/Base/Texts.antt =====
-- JavaScript strings and byte arrays: lists of numbers, compared element by element.
use Prim.Native.Nat.{ℕ}
use Prim.Native.Char.{code}
use Prim.Native.String.{String}
use mathlib.Core.Path.{◌≡◌, refl}
use mathlib.Core.Logic.{◌↔◌}
use mathlib.Core.Bool.{Bool, true, false, ◌&&◌}
use mathlib.Core.List.{List, [], ◌∷◌}
use native.Mathlib.Omega.{arith}
use undergroundbb.Base.Tests.{◌==◌, ltb, if◌then◌else◌}

-- A JavaScript string is the list of its UTF-16 code units.
abbrev pub Text : Type 0
Text = List ℕ

-- A `Uint8Array`.
abbrev pub Bytes : Type 0
Bytes = List ℕ

-- A literal of the source, all of whose characters are ASCII.
abbrev pub codes : String → Text
codes String.[] = []
codes (String.◌∷◌ c s) = code c ∷ codes s

-- `===` on strings.
infix 50 ◌===◌ ◌<<◌
unfoldable pub ◌===◌ : Text → Text → Bool
[] === [] = true
[] === (y ∷ ys) = false
(x ∷ xs) === [] = false
(x ∷ xs) === (y ∷ ys) = x == y && xs === ys

pub ===_refl : (xs : Text) → (xs === xs) ≡ true
unfolding ◌===◌
===_refl [] = refl
===_refl (x ∷ xs) = ground (arith, ===_refl xs)

pub ===_sound : (xs ys : Text) → (xs === ys) ≡ true → xs ≡ ys
unfolding ◌===◌
===_sound [] [] h = refl
===_sound [] (y ∷ ys) h = cc
===_sound (x ∷ xs) [] h = cc
===_sound (x ∷ xs) (y ∷ ys) h = ground (arith, ===_sound xs ys)

pub ===_iff : (xs ys : Text) → ((xs === ys) ≡ true) ↔ (xs ≡ ys)
===_iff xs ys = (===_sound xs ys, λ e. ground (arith, ===_refl xs))

-- `<` on strings: lexicographic by code unit.
unfoldable pub ◌<<◌ : Text → Text → Bool
xs << [] = false
[] << (y ∷ ys) = true
(x ∷ xs) << (y ∷ ys) = let rest = xs << ys in if ltb x y then true else x == y && rest
