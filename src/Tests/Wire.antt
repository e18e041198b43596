-- ===== src/Tests/Wire.antt =====
-- Encodings and contexts of concrete messages.
use undergroundbb.Wire.Injective.{length_prefixed_concat_injective}
use undergroundbb.Wire.Decimal.{decimal_injective}
use undergroundbb.Tests.Toy.{toy}
use undergroundbb.Base.{Bytes, List, ◌↔◌, arith, true, codes, Text, ◌∷◌, ℕ, ◌≡◌, refl, []}
use undergroundbb.Wire.Compare.{bytes_equal, bytes_equal_iff}
use undergroundbb.Wire.Signature.{IsAscii, post, contextualize_injective}

bytes_equal_iff_example :
    (bytes_equal (codes "key") (codes "kez") ≡ true) ↔ (codes "key" ≡ codes "kez")
bytes_equal_iff_example = bytes_equal_iff (codes "key") (codes "kez")

abbrev generation : ℕ
generation = 1024

decimal_injective_example : generation ≡ 1024
decimal_injective_example = decimal_injective generation 1024 refl

abbrev fields : List Bytes
fields = codes "user" ∷ [] ∷ codes "group" ∷ []

length_prefixed_concat_injective_example : fields ≡ codes "user" ∷ [] ∷ codes "group" ∷ []
length_prefixed_concat_injective_example =
    length_prefixed_concat_injective fields (codes "user" ∷ [] ∷ codes "group" ∷ [])
      ((omega arith), ((omega arith), ((omega arith), tt)))
      ((omega arith), ((omega arith), ((omega arith), tt))) refl

ascii_kept : (s : Text) → IsAscii s → toy.utf8 s ≡ s
unfolding toy
ascii_kept s h = refl

contextualize_injective_example : (post ≡ post) × (codes "message" ≡ codes "message")
contextualize_injective_example =
    contextualize_injective toy ascii_kept post post (codes "message") (codes "message") refl
