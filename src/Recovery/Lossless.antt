-- ===== src/Recovery/Lossless.antt =====
-- Two draws of random bytes never give the same recovery code, and a code has its full length.
use undergroundbb.Base.{
  ℕ, zero, suc, ◌+◌, ◌-◌, ◌*◌, ◌^◌, ◌<◌, ◌≡◌, refl, sym, ap, ◌∙◌, List, [], ◌∷◌, ◌++◌, Text, Bytes,
  All, arith, length, map, In, first, later, every, every-In, ◌==◌, ==_iff, if◌then◌else◌, true,
  inl, inr, Bool-cases,
}
use undergroundbb.Recovery.Encode.{
  alphabet, char_at, emit, left, shift_in, last_index, encode_bits, encode_base32,
}
use undergroundbb.Recovery.Value.{value, padding, IsByte, value-encode_bits}

-- The filling, and the number of characters, by the number of bytes.
pad_of : ℕ → ℕ → ℕ
pad_of zero zero = 0
pad_of (suc count) zero = 5 - suc count
pad_of count (suc n) = pad_of (left (count + 8)) n

padding_by_length : (count : ℕ) (bytes : Bytes) → padding count bytes ≡ pad_of count (length bytes)
unfolding padding pad_of
padding_by_length zero [] = refl
padding_by_length (suc count) [] = refl
padding_by_length zero (b ∷ bytes) = padding_by_length (left (zero + 8)) bytes
padding_by_length (suc count) (b ∷ bytes) = padding_by_length (left (suc count + 8)) bytes

value-injective :
    (acc other : ℕ) (xs ys : Bytes)
    → length xs ≡ length ys
    → All IsByte xs
    → All IsByte ys
    → value 256 acc xs ≡ value 256 other ys
    → (acc ≡ other) × (xs ≡ ys)
unfolding value
value-injective acc other [] [] same ax ay e = (e, refl)
value-injective acc other [] (y ∷ ys) same ax ay e = absurd (omega (arith, same))
value-injective acc other (x ∷ xs) [] same ax ay e = absurd (omega (arith, same))
value-injective acc other (x ∷ xs) (y ∷ ys) same (bx, ax) (by, ay) e =
    let (digit, rest) =
      value-injective (acc * 256 + x) (other * 256 + y) xs ys (omega (arith, same)) ax ay e in
    let is : x ≡ y = omega (arith, digit, bx, by) in (omega (arith, digit, bx, by), cc (is, rest))

abbrev pub IsIndex : ℕ → Type 0
IsIndex i = i < 32

All-append : (xs ys : List ℕ) → All IsIndex xs → All IsIndex ys → All IsIndex (xs ++ ys)
All-append [] ys ax ay = ay
All-append (x ∷ xs) ys (here, ax) ay = (here, All-append xs ys ax ay)

emit-IsIndex : (buffer count : ℕ) → All IsIndex (emit buffer count)
unfolding emit
emit-IsIndex buffer zero = tt
emit-IsIndex buffer (suc zero) = tt
emit-IsIndex buffer (suc (suc zero)) = tt
emit-IsIndex buffer (suc (suc (suc zero))) = tt
emit-IsIndex buffer (suc (suc (suc (suc zero)))) = tt
emit-IsIndex buffer (suc (suc (suc (suc (suc count))))) = (omega arith, emit-IsIndex buffer count)

pub encode_bits-IsIndex :
    (buffer count : ℕ) (bytes : Bytes) → All IsIndex (encode_bits buffer count bytes)
unfolding encode_bits last_index
encode_bits-IsIndex buffer zero [] = tt
encode_bits-IsIndex buffer (suc count) [] = (omega arith, tt)
encode_bits-IsIndex buffer count (b ∷ bytes) =
    All-append (emit (shift_in buffer b) (count + 8)) _
      (emit-IsIndex (shift_in buffer b) (count + 8))
      (encode_bits-IsIndex (shift_in buffer b) (left (count + 8)) bytes)

-- Reading a character of the alphabet back.
index_of : ℕ → Text → ℕ
index_of c [] = 0
index_of c (d ∷ ds) = let rest = index_of c ds in if c == d then 0 else suc rest

below : ℕ → List ℕ
below zero = []
below (suc n) = n ∷ below n

In-below : (i n : ℕ) → i < n → In i (below n)
unfolding below
In-below i zero low = absurd (omega (arith, low))
In-below i (suc n) low = elim (Bool-cases (i == n)) [
  | inl same ↦ first ((==_iff i n).0 same)
  | inr apart ↦ later (In-below i n (ground (arith, apart, low)))
]

reads_back : every (λ i. index_of (char_at i alphabet) alphabet == i) (below 32) ≡ true
unfolding every index_of char_at alphabet below
reads_back = refl

index_of-char_at : (i : ℕ) → i < 32 → index_of (char_at i alphabet) alphabet ≡ i
index_of-char_at i low = (==_iff _ i).0 (
    every-In (λ i. index_of (char_at i alphabet) alphabet == i) (below 32) reads_back
      (In-below i 32 low))

map-index_of :
    (xs : List ℕ)
    → All IsIndex xs
    → map (λ c. index_of c alphabet) (map (λ i. char_at i alphabet) xs) ≡ xs
map-index_of [] all = refl
map-index_of (x ∷ xs) (low, all) = cc (index_of-char_at x low, map-index_of xs all)

-- Two lists of 16 bytes, each below 256, with the same characters are the same list: no bit of the
-- random bytes is lost, and the 32-bit buffer loses none.
pub encode_base32-injective :
    (xs ys : Bytes)
    → length xs ≡ 16
    → length ys ≡ 16
    → All IsByte xs
    → All IsByte ys
    → encode_base32 xs ≡ encode_base32 ys
    → xs ≡ ys
unfolding encode_base32 pad_of left
encode_base32-injective xs ys nx ny ax ay e =
    let indices : encode_bits 0 0 xs ≡ encode_bits 0 0 ys =
      sym (map-index_of (encode_bits 0 0 xs) (encode_bits-IsIndex 0 0 xs))
      ∙ ap (map (λ c. index_of c alphabet)) e
      ∙ map-index_of (encode_bits 0 0 ys) (encode_bits-IsIndex 0 0 ys) in
    let px : padding 0 xs ≡ 2 = padding_by_length 0 xs ∙ ap (pad_of 0) nx in
    let py : padding 0 ys ≡ 2 = padding_by_length 0 ys ∙ ap (pad_of 0) ny in
    let vx : value 32 0 (encode_bits 0 0 xs) ≡ value 256 0 xs * 4 =
      value-encode_bits 0 0 0 xs (omega arith) ax ∙ ap (λ p. value 256 0 xs * 2 ^ p) px in
    let vy : value 32 0 (encode_bits 0 0 ys) ≡ value 256 0 ys * 4 =
      value-encode_bits 0 0 0 ys (omega arith) ay ∙ ap (λ p. value 256 0 ys * 2 ^ p) py in
    let same : value 256 0 xs ≡ value 256 0 ys = omega (arith, vx, vy, ap (value 32 0) indices) in
    (value-injective 0 0 xs ys (nx ∙ sym ny) ax ay same).1
