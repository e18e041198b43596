-- ===== src/Wire/Injective.antt =====
-- The encoding of payload.ts can be read back: two lists of fields with one encoding are equal.
use mathlib.Core.List.{append_assoc, append-nil}
use undergroundbb.Base.{
  ℕ, ◌/◌, ◌%◌, ◌<◌, ◌≡◌, refl, sym, ◌∙◌, List, [], ◌∷◌, ◌++◌, arith, Bytes, length, All,
}
use undergroundbb.Wire.Encoding.{
  uint32_be, append_length_prefixed, concat_onto, length_prefixed_concat,
}

-- A field whose length the four bytes can hold.
abbrev pub Fits : Bytes → Type 0
Fits field = length field < 4294967296

uint32_be_injective :
    (a b : ℕ) (r s : Bytes)
    → a < 4294967296
    → b < 4294967296
    → uint32_be a ++ r ≡ uint32_be b ++ s
    → (a ≡ b) × (r ≡ s)
unfolding uint32_be
uint32_be_injective a b r s ha hb h = (
  omega (
    arith,
    byte_eq (a / 16777216 % 256) (b / 16777216 % 256) h,
    byte_eq (a / 65536 % 256) (b / 65536 % 256) (tail_eq h),
    byte_eq (a / 256 % 256) (b / 256 % 256) (tail_eq (tail_eq h)),
    byte_eq (a % 256) (b % 256) (tail_eq (tail_eq (tail_eq h))),
  ),
  tail_eq (tail_eq (tail_eq (tail_eq h))),
)
  where
    byte_eq : (x y : ℕ) {xs ys : Bytes} → x ∷ xs ≡ y ∷ ys → x ≡ y
    byte_eq x y e = cc

    tail_eq : {x y : ℕ} {xs ys : Bytes} → x ∷ xs ≡ y ∷ ys → xs ≡ ys
    tail_eq e = cc

append_cancel : (x y r s : Bytes) → length x ≡ length y → x ++ r ≡ y ++ s → (x ≡ y) × (r ≡ s)
append_cancel [] [] r s e h = (refl, h)
append_cancel [] (b ∷ y) r s e h = absurd (omega arith)
append_cancel (a ∷ x) [] r s e h = absurd (omega arith)
append_cancel (a ∷ x) (b ∷ y) r s e h =
    let (same, rest) = append_cancel x y r s (omega arith) (cc) in (cc, rest)

-- What the loop writes, without its accumulator.
encoded : List Bytes → Bytes
encoded [] = []
encoded (field ∷ fields) = uint32_be (length field) ++ (field ++ encoded fields)

concat_onto-eq :
    (out : Bytes) (fields : List Bytes) → concat_onto out fields ≡ out ++ encoded fields
unfolding concat_onto append_length_prefixed encoded
concat_onto-eq out [] = sym (append-nil out)
concat_onto-eq out (field ∷ fields) =
    concat_onto-eq (out ++ (uint32_be (length field) ++ field)) fields ∙ simp append_assoc

encoded_injective :
    (xs ys : List Bytes) → All Fits xs → All Fits ys → encoded xs ≡ encoded ys → xs ≡ ys
unfolding encoded
encoded_injective [] [] p q h = refl
encoded_injective [] (y ∷ ys) p q h = unfold uint32_be in cc
encoded_injective (x ∷ xs) [] p q h = unfold uint32_be in cc
encoded_injective (x ∷ xs) (y ∷ ys) (px, p) (qy, q) h =
    let (lengths, rest) = uint32_be_injective (length x) (length y) _ _ px qy h in
    let (same, later) = append_cancel x y (encoded xs) (encoded ys) lengths rest in
    cc (same, encoded_injective xs ys p q later)

-- Two lists of fields, each shorter than 4 GiB, that are encoded alike are the same list: no byte of
-- a payload can be moved from one field to another, and no field added or dropped.
pub length_prefixed_concat_injective :
    (xs ys : List Bytes)
    → All Fits xs
    → All Fits ys
    → length_prefixed_concat xs ≡ length_prefixed_concat ys
    → xs ≡ ys
unfolding length_prefixed_concat
length_prefixed_concat_injective xs ys p q h =
    encoded_injective xs ys p q (sym (concat_onto-eq [] xs) ∙ h ∙ concat_onto-eq [] ys)
