-- ===== src/Pin/Sets.antt =====
-- Key sets: what `keySet` and `sameSet` of pin.ts say of the lists as sets.
use undergroundbb.History.Roster.{key_size}
use undergroundbb.Base.{
  guard-eq-some, not, if◌then◌else◌, >>=-eq-some, suc, ◌≤◌, ◌≡◌, refl, sym, subst, ◌∙◌, ◌⊎◌, inl,
  inr, true, false, List, [], ◌∷◌, ◌++◌, none, some, arith, Text, Bytes, length, In, first, later,
  any, Bool-cases, any-In, every-In, ◌==◌, ==_iff, and-eq_true,
}
use undergroundbb.Platform.{Platform}
use undergroundbb.Wire.Compare.{bytes_equal, bytes_equal_iff}
use undergroundbb.Wire.Encoding.{base64_to_bytes}
use undergroundbb.Pin.Evaluate.{same_set, keys_onto, key_set}

-- No key stands twice.
pub data IsDistinct : List Bytes → Type 0 where
  no_keys : IsDistinct []
  one_more : {x : Bytes} {xs : List Bytes} → (In x xs → ⊥) → IsDistinct xs → IsDistinct (x ∷ xs)

-- A list without one of its elements.
removed : {x : Bytes} (ys : List Bytes) → In x ys → List Bytes
removed [] m = []
removed (y ∷ ys) (first e) = ys
removed (y ∷ ys) (later m) = y ∷ removed ys m

length-removed :
    {x : Bytes} (ys : List Bytes) (m : In x ys) → length ys ≡ suc (length (removed ys m))
unfolding removed
length-removed [] m = elim m [ ]
length-removed (y ∷ ys) (first e) = refl
length-removed (y ∷ ys) (later m) = omega (arith, length-removed ys m)

removed-In : {x z : Bytes} (ys : List Bytes) (m : In x ys) → In z ys → (z ≡ x) ⊎ In z (removed ys m)
unfolding removed
removed-In [] m n = elim m [ ]
removed-In (y ∷ ys) (first e) (first q) = inl (q ∙ sym e)
removed-In (y ∷ ys) (first e) (later n) = inr n
removed-In (y ∷ ys) (later m) (first q) = inr (first q)
removed-In (y ∷ ys) (later m) (later n) = elim (removed-In ys m n) [
  | inl same ↦ inl same
  | inr other ↦ inr (later other)
]

-- A list without repetition, all of whose elements stand in one that is no longer, has all of that
-- one's elements.
subset_fills :
    (xs ys : List Bytes)
    → IsDistinct xs
    → length ys ≤ length xs
    → ((z : Bytes) → In z xs → In z ys)
    → (z : Bytes) → In z ys
    → In z xs
subset_fills [] [] d fits sub z m = m
subset_fills [] (y ∷ ys) d fits sub z m = absurd (omega arith)
subset_fills (x ∷ xs) ys (one_more fresh d) fits sub z m =
    let at = sub x (first refl) in
    elim (removed-In ys at m) [
      | inl same ↦ first same
      | inr rest ↦ later (
          subset_fills xs (removed ys at) d (omega (arith, length-removed ys at))
            (λ w n. elim (removed-In ys at (sub w (later n))) [
              | inl is_x ↦ absurd (fresh (subst (λ k. In k xs) is_x n))
              | inr other ↦ other
            ])
            z rest)
    ]

any_equal-In : (x : Bytes) (ys : List Bytes) → any (λ y. bytes_equal x y) ys ≡ true → In x ys
any_equal-In x ys e =
    let (y, m, same) = any-In (λ y. bytes_equal x y) ys e in
    subst (λ k. In k ys) (sym ((bytes_equal_iff x y).0 same)) m

-- `same_set`, on lists of which the first has no repetition, says that they have the same elements.
pub same_set_sound :
    (xs ys : List Bytes)
    → IsDistinct xs
    → same_set xs ys ≡ true
    → (z : Bytes) → (In z xs → In z ys) × (In z ys → In z xs)
unfolding same_set
same_set_sound xs ys d e z =
    let (sizes, inside) = and-eq_true (length xs == length ys) _ e in
    let equal : length xs ≡ length ys = (==_iff (length xs) (length ys)).0 sizes in
    let sub : (w : Bytes) → In w xs → In w ys =
      λ w m. any_equal-In w ys (every-In (λ x. any (λ y. bytes_equal x y) ys) xs inside m) in
    (sub z, subset_fills xs ys d (omega (arith, equal)) sub z)

IsDistinct-append :
    (xs : List Bytes) (b : Bytes)
    → IsDistinct xs
    → any (λ o. bytes_equal o b) xs ≡ false
    → IsDistinct (xs ++ b ∷ [])
unfolding any
IsDistinct-append [] b d e = one_more (λ m. elim m [ ]) no_keys
IsDistinct-append (x ∷ xs) b (one_more fresh d) e =
    let facts : (bytes_equal x b ≡ false) × (any (λ o. bytes_equal o b) xs ≡ false) =
      ground (arith, e) in
    one_more (λ m. not_new xs m fresh facts.0) (IsDistinct-append xs b d facts.1)
  where
    not_new : (zs : List Bytes) → In x (zs ++ b ∷ []) → (In x zs → ⊥) → bytes_equal x b ≡ false → ⊥
    not_new [] (first same) fresh differ = cc (differ, (bytes_equal_iff x b).1 same)
    not_new [] (later m) fresh differ = elim m [ ]
    not_new (z ∷ zs) (first same) fresh differ = fresh (first same)
    not_new (z ∷ zs) (later m) fresh differ = not_new zs m (λ n. fresh (later n)) differ

keys_onto-IsDistinct :
    (platform : Platform) (out : List Bytes) (ks : List Text) (keys : List Bytes)
    → IsDistinct out
    → keys_onto platform out ks ≡ some keys
    → IsDistinct keys
unfolding keys_onto
keys_onto-IsDistinct platform out [] keys d e =
    let same : out ≡ keys = cc in subst IsDistinct same d
keys_onto-IsDistinct platform out (k ∷ ks) keys d e =
    let (b, read, more) =
      >>=-eq-some (base64_to_bytes platform k)
        (λ b.
          if not (length b == key_size)
          then none
          else keys_onto platform (if any (λ o. bytes_equal o b) out then out else out ++ b ∷ [])
              ks)
        e in
    let (sized, rest) = guard-eq-some (length b == key_size) _ more in
    elim (Bool-cases (any (λ o. bytes_equal o b) out)) [
      | inl old ↦ keys_onto-IsDistinct platform out ks keys d (rw old at rest)
      | inr fresh ↦
          keys_onto-IsDistinct platform (out ++ b ∷ []) ks keys (IsDistinct-append out b d fresh)
            (rw fresh at rest)
    ]

-- A key set has no repetition.
pub key_set-IsDistinct :
    (platform : Platform) (ks : List Text) (keys : List Bytes)
    → key_set platform ks ≡ some keys
    → IsDistinct keys
unfolding key_set
key_set-IsDistinct platform ks keys e = keys_onto-IsDistinct platform [] ks keys no_keys e
