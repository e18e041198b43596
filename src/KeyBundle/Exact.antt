-- ===== src/KeyBundle/Exact.antt =====
-- The decoder reads exactly what the encoder writes.
use undergroundbb.Base.{
  take-drop, length-drop, ℕ, zero, suc, ◌+◌, ◌≤◌, ◌≡◌, refl, sym, ap, ◌∙◌, subst, ◌↔◌, inl, inr, [],
  ◌∷◌, ◌++◌, some, arith, Bytes, Bool-cases, Option-cases, ◌==◌, ==_iff, ltb, true, length,
  length-append, take, drop,
}
use undergroundbb.Wire.Encoding.{uint32_be}
use undergroundbb.KeyBundle.Layout.{
  KeyBundle, bundle, append_field, encode_key_bundle, get_uint32, read_length_prefixed,
  decode_wrapping_key, decode_fields, decode_key_bundle,
}

drop-append : (xs ys : Bytes) → drop (length xs) (xs ++ ys) ≡ ys
drop-append [] ys = refl
drop-append (x ∷ xs) ys = drop-append xs ys

take-append : (xs ys : Bytes) → take (length xs) (xs ++ ys) ≡ xs
take-append [] ys = refl
take-append (x ∷ xs) ys = ap (λ l. x ∷ l) (take-append xs ys)

drop_nothing : (n : ℕ) → drop {A = ℕ} n [] ≡ []
drop_nothing zero = refl
drop_nothing (suc n) = refl

drop-drop : (n m : ℕ) (xs : Bytes) → drop m (drop n xs) ≡ drop (m + n) xs
drop-drop zero m xs = ap (λ k. drop k xs) (omega arith)
drop-drop (suc n) m [] = drop_nothing m ∙ sym (drop_nothing (m + suc n))
drop-drop (suc n) m (x ∷ xs) =
    let more : suc (m + n) ≡ m + suc n = omega arith in
    drop-drop n m xs ∙ ap (λ k. drop k (x ∷ xs)) more

length-take : (n : ℕ) (xs : Bytes) → n ≤ length xs → length (take n xs) ≡ n
length-take zero xs low = refl
length-take (suc n) [] low = absurd (omega (arith, low))
length-take (suc n) (x ∷ xs) low = omega (arith, length-take n xs (omega (arith, low)))

drop_all : (n : ℕ) (xs : Bytes) → n ≡ length xs → drop n xs ≡ []
drop_all zero [] e = refl
drop_all (suc n) [] e = refl
drop_all zero (x ∷ xs) e = absurd (omega (arith, e))
drop_all (suc n) (x ∷ xs) e = drop_all n xs (omega (arith, e))

abbrev prefixed : Bytes → Bytes
prefixed rest = 0 ∷ 0 ∷ 0 ∷ 32 ∷ rest

get_uint32_thirty_two : (d : Bytes) → 4 ≤ length d → get_uint32 d ≡ 32 → d ≡ prefixed (drop 4 d)
unfolding get_uint32
get_uint32_thirty_two [] low e = absurd (omega (arith, low))
get_uint32_thirty_two (a ∷ []) low e = absurd (omega (arith, low))
get_uint32_thirty_two (a ∷ b ∷ []) low e = absurd (omega (arith, low))
get_uint32_thirty_two (a ∷ b ∷ c ∷ []) low e = absurd (omega (arith, low))
get_uint32_thirty_two (a ∷ b ∷ c ∷ d ∷ rest) low e =
    let za : a ≡ 0 = omega (arith, e) in
    let zb : b ≡ 0 = omega (arith, e) in
    let zc : c ≡ 0 = omega (arith, e) in let zd : d ≡ 32 = omega (arith, e) in cc (za, zb, zc, zd)

-- A field of 32 bytes that was read stands at the offset, behind its length.
read_length_prefixed_sound :
    (blob : Bytes) (offset : ℕ) (field : Bytes) (after : ℕ)
    → read_length_prefixed blob offset ≡ some (field, after)
    → length field ≡ 32
    → (after ≡ offset + 36) × (drop offset blob ≡ prefixed (field ++ drop after blob))
unfolding read_length_prefixed
read_length_prefixed_sound blob offset field after e n =
    let d = drop offset blob in
    let k = get_uint32 d in
    elim (Bool-cases (ltb (length blob) (offset + 4))) [
      | inl short ↦ absurd (ground (arith, short, e))
      | inr long ↦ elim (Bool-cases (ltb (length blob) (offset + 4 + k))) [
        | inl short ↦ absurd (ground (arith, long, short, e))
        | inr fits ↦
            let read : Bytes × ℕ = (take k (drop (offset + 4) blob), offset + 4 + k) in
            let found : some read ≡ some (field, after) = ground (arith, long, fits, e) in
            let same : read ≡ (field, after) = cc found in
            let is_field : take k (drop (offset + 4) blob) ≡ field = ap (λ r. r.0) same in
            let is_after : offset + 4 + k ≡ after = ap (λ r. r.1) same in
            let within : offset + 4 + k ≤ length blob = ground (arith, fits) in
            let is_32 : k ≡ 32 =
              sym (
                length-take k (drop (offset + 4) blob)
                  (omega (arith, within, length-drop (offset + 4) blob)))
              ∙ ap length is_field
              ∙ n in
            let four : drop 4 d ≡ drop (offset + 4) blob =
              drop-drop offset 4 blob ∙ ap (λ j. drop j blob) (omega arith) in
            let rest : drop k (drop (offset + 4) blob) ≡ drop after blob =
              drop-drop (offset + 4) k blob ∙ ap (λ j. drop j blob) (omega (arith, is_after)) in
            (
              omega (arith, is_after, is_32),
              get_uint32_thirty_two d (omega (arith, within, length-drop offset blob)) is_32
                  ∙ ap prefixed
                      (four ∙ sym (take-drop k (drop (offset + 4) blob)) ∙ cc (is_field, rest)),
            )
      ]
    ]

read_length_prefixed_at :
    (blob : Bytes) (offset k : ℕ) (rest : Bytes)
    → get_uint32 (drop offset blob) ≡ k
    → drop (offset + 4) blob ≡ rest
    → offset + 4 + k ≤ length blob
    → read_length_prefixed blob offset ≡ some (take k rest, offset + 4 + k)
unfolding read_length_prefixed
read_length_prefixed_at blob offset k rest ek er within = ground (arith, ek, er, within)

-- Reading back what was written behind the bytes `pre`.
read_length_prefixed_written :
    (pre field post : Bytes)
    → length field ≡ 32
    → read_length_prefixed (pre ++ prefixed (field ++ post)) (length pre)
      ≡ some (field, length pre + 36)
unfolding get_uint32
read_length_prefixed_written pre field post n =
    let blob : Bytes = pre ++ prefixed (field ++ post) in
    let at : drop (length pre) blob ≡ prefixed (field ++ post) = drop-append pre _ in
    let behind : drop (length pre + 4) blob ≡ field ++ post =
      ap (λ j. drop j blob) (omega arith) ∙ sym (drop-drop (length pre) 4 blob) ∙ ap (drop 4) at in
    let taken : take 32 (field ++ post) ≡ field =
      ap (λ j. take j (field ++ post)) (sym n) ∙ take-append field post in
    let end : length pre + 4 + 32 ≡ length pre + 36 = omega arith in
    let fits : length pre + 4 + 32 ≤ length blob =
      omega (arith, n, length-append pre (prefixed (field ++ post)), length-append field post) in
    read_length_prefixed_at blob (length pre) 32 (field ++ post) (ap get_uint32 at) behind fits
    ∙ cc (taken, end)

wrapping_sound :
    (blob seed : Bytes) (offset : ℕ) (b : KeyBundle)
    → decode_wrapping_key blob seed offset ≡ bundle b
    → (seed ≡ b.signing_seed)
      × (length b.wrapping_private_key ≡ 32)
      × (drop offset blob ≡ prefixed (b.wrapping_private_key ++ []))
unfolding decode_wrapping_key
wrapping_sound blob seed offset b e = elim (Option-cases (read_length_prefixed blob offset)) [
  | inl short ↦ absurd (ground (arith, short, e))
  | inr (w, got) ↦
      let facts : ((length w.0 == 32) ≡ true)
          × ((w.1 == length blob) ≡ true)
          × (bundle (record { signing_seed = seed; wrapping_private_key = w.0 }) ≡ bundle b) =
        ground (arith, got, e) in
      let same : record { signing_seed = seed; wrapping_private_key = w.0 } ≡ b = cc facts.2 in
      let n = (==_iff (length w.0) 32).0 facts.0 in
      let (after, stands) = read_length_prefixed_sound blob offset w.0 w.1 got n in
      (
        ap (λ k. k.signing_seed) same,
        ap (λ k. length k.wrapping_private_key) (sym same) ∙ n,
        stands
            ∙ ap prefixed (
                cc (
                  ap (λ k. k.wrapping_private_key) same,
                  drop_all w.1 blob ((==_iff w.1 (length blob)).0 facts.1),
                )),
      )
]

abbrev layout : KeyBundle → Bytes
layout b = 1 ∷ prefixed (b.signing_seed ++ prefixed (b.wrapping_private_key ++ []))

record IsSized (b : KeyBundle) : Type 0 where
  seed : length b.signing_seed ≡ 32
  wrapping : length b.wrapping_private_key ≡ 32

append-nil : (xs : Bytes) → xs ++ [] ≡ xs
append-nil [] = refl
append-nil (x ∷ xs) = ap (λ l. x ∷ l) (append-nil xs)

decode_sound :
    (blob : Bytes) (b : KeyBundle)
    → decode_key_bundle blob ≡ bundle b
    → IsSized b × (blob ≡ layout b)
unfolding decode_key_bundle decode_fields
decode_sound [] b e = cc
decode_sound (version ∷ rest) b e =
    let blob : Bytes = version ∷ rest in
    elim (Bool-cases (version == 1)) [
      | inr other ↦ absurd (ground (arith, other, e))
      | inl one ↦ elim (Option-cases (read_length_prefixed blob 1)) [
        | inl short ↦ absurd (ground (arith, one, short, e))
        | inr (s, got) ↦
            let facts : ((length s.0 == 32) ≡ true)
                × (decode_wrapping_key blob s.0 s.1 ≡ bundle b) =
              ground (arith, one, got, e) in
            let n = (==_iff (length s.0) 32).0 facts.0 in
            let (after, stands) = read_length_prefixed_sound blob 1 s.0 s.1 got n in
            let (is_seed, wrapping, tail) = wrapping_sound blob s.0 s.1 b facts.1 in
            (
              record { seed = ap length (sym is_seed) ∙ n; wrapping = wrapping },
              cc ((==_iff version 1).0 one, stands, tail, is_seed),
            )
      ]
    ]

decode_layout : (b : KeyBundle) → IsSized b → decode_key_bundle (layout b) ≡ bundle b
unfolding decode_key_bundle decode_fields decode_wrapping_key
decode_layout b sized =
    let first_read =
      read_length_prefixed_written (1 ∷ []) b.signing_seed (prefixed (b.wrapping_private_key ++ []))
        sized.seed in
    let second_read =
      read_length_prefixed_written (1 ∷ prefixed b.signing_seed) b.wrapping_private_key []
        sized.wrapping in
    let blob : Bytes = layout b in
    let ahead : length (1 ∷ prefixed b.signing_seed) ≡ 37 = omega (arith, sized.seed) in
    let second : read_length_prefixed blob 37 ≡ some (b.wrapping_private_key, 73) =
      subst (λ k. read_length_prefixed blob k ≡ some (b.wrapping_private_key, k + 36)) ahead
        second_read in
    let total : length blob ≡ 73 = omega (
      arith,
      sized.seed,
      sized.wrapping,
      length-append b.signing_seed (prefixed (b.wrapping_private_key ++ [])),
      length-append b.wrapping_private_key [],
    ) in
    let wrapping : decode_wrapping_key blob b.signing_seed 37 ≡ bundle b =
      ground (arith, second, sized.wrapping, total) in
    ground (arith, first_read, sized.seed, wrapping)

encode_layout : (b : KeyBundle) → IsSized b → encode_key_bundle b ≡ some (layout b)
unfolding encode_key_bundle append_field uint32_be
encode_layout b sized =
    let written : append_field (append_field (1 ∷ []) b.signing_seed) b.wrapping_private_key
        ≡ layout b =
      cc
        (ap uint32_be sized.seed, ap uint32_be sized.wrapping, append-nil b.wrapping_private_key) in
    ground (arith, sized.seed, sized.wrapping, ap some written)

encoded-IsSized : (b : KeyBundle) (blob : Bytes) → encode_key_bundle b ≡ some blob → IsSized b
unfolding encode_key_bundle
encoded-IsSized b blob e = record { seed = ground (arith, e); wrapping = ground (arith, e) }

-- Bytes decode to a key bundle exactly if they are what the bundle is encoded to: decoding undoes
-- encoding, and nothing else decodes.
pub decode_key_bundle_iff :
    (blob : Bytes) (b : KeyBundle)
    → (decode_key_bundle blob ≡ bundle b) ↔ (encode_key_bundle b ≡ some blob)
decode_key_bundle_iff blob b = (
  λ e. let (sized, same) = decode_sound blob b e in encode_layout b sized ∙ ap some (sym same),
  λ e.
      let sized = encoded-IsSized b blob e in
      let same : layout b ≡ blob = cc (encode_layout b sized, e) in
      ap decode_key_bundle (sym same) ∙ decode_layout b sized,
)
