-- ===== src/Recovery/RoundTrip.antt =====
-- A recovery code that is typed as it was shown is read as the characters that it was made of.
use undergroundbb.Base.{
  take-drop, length-drop, ℕ, zero, suc, ◌+◌, ◌<◌, ◌≡◌, refl, ap, ◌∙◌, Bool, List, [], ◌∷◌, ◌++◌,
  some, Text, Bytes, All, arith, length, length-append, take, drop, map, keep, In, first, later,
  every, every-In, ◌==◌, ltb, true, false, not, ◌&&◌, any,
}
use undergroundbb.Recovery.Encode.{
  alphabet, char_at, emit, left, shift_in, last_index, encode_bits, encode_base32, join_groups,
  format_recovery_code, recovery_code_of, is_separator, corrected, clean, normalize_recovery_code,
}
use undergroundbb.Recovery.Lossless.{IsIndex, encode_bits-IsIndex}

emitted : ℕ → ℕ
emitted (suc (suc (suc (suc (suc count))))) = suc (emitted count)
emitted count = 0

written : ℕ → ℕ → ℕ
written zero zero = 0
written (suc count) zero = 1
written count (suc n) = emitted (count + 8) + written (left (count + 8)) n

length-emit : (buffer count : ℕ) → length (emit buffer count) ≡ emitted count
unfolding emit emitted
length-emit buffer zero = refl
length-emit buffer (suc zero) = refl
length-emit buffer (suc (suc zero)) = refl
length-emit buffer (suc (suc (suc zero))) = refl
length-emit buffer (suc (suc (suc (suc zero)))) = refl
length-emit buffer (suc (suc (suc (suc (suc count))))) = ap suc (length-emit buffer count)

length-encode_bits :
    (buffer count : ℕ) (bytes : Bytes)
    → length (encode_bits buffer count bytes) ≡ written count (length bytes)
unfolding encode_bits last_index written
length-encode_bits buffer zero [] = refl
length-encode_bits buffer (suc count) [] = refl
length-encode_bits buffer zero (b ∷ bytes) =
    length-append (emit (shift_in buffer b) 8) _
    ∙ omega (
      arith,
      length-emit (shift_in buffer b) 8,
      length-encode_bits (shift_in buffer b) (left 8) bytes,
    )
length-encode_bits buffer (suc count) (b ∷ bytes) =
    length-append (emit (shift_in buffer b) (suc count + 8)) _
    ∙ omega (
      arith,
      length-emit (shift_in buffer b) (suc count + 8),
      length-encode_bits (shift_in buffer b) (left (suc count + 8)) bytes,
    )

length-map : (f : ℕ → ℕ) (xs : List ℕ) → length (map f xs) ≡ length xs
length-map f [] = refl
length-map f (x ∷ xs) = ap suc (length-map f xs)

length-encode_base32 : (bytes : Bytes) → length bytes ≡ 16 → length (encode_base32 bytes) ≡ 26
unfolding encode_base32 written emitted left
length-encode_base32 bytes n =
    length-map (λ i. char_at i alphabet) (encode_bits 0 0 bytes)
    ∙ length-encode_bits 0 0 bytes
    ∙ ap (written 0) n

-- A character that cleaning leaves as it is, and that is no lower-case letter.
is_symbol : ℕ → Bool
is_symbol c = not (is_separator c) && (corrected c == c && ltb c 97)

alphabet_symbols : every is_symbol alphabet ≡ true
unfolding every is_symbol alphabet is_separator corrected any
alphabet_symbols = refl

char_at-In : (i : ℕ) (cs : Text) → i < length cs → In (char_at i cs) cs
unfolding char_at
char_at-In i [] low = absurd (omega (arith, low))
char_at-In zero (c ∷ cs) low = first refl
char_at-In (suc i) (c ∷ cs) low = later (char_at-In i cs (omega (arith, low)))

length-alphabet : length alphabet ≡ 32
unfolding alphabet
length-alphabet = refl

abbrev IsSymbol : ℕ → Type 0
IsSymbol c = is_symbol c ≡ true

symbols :
    (indices : List ℕ) → All IsIndex indices → All IsSymbol (map (λ i. char_at i alphabet) indices)
symbols [] all = tt
symbols (i ∷ indices) (low, all) = (
  every-In is_symbol alphabet alphabet_symbols
      (char_at-In i alphabet (omega (arith, low, length-alphabet))),
  symbols indices all,
)

All-take : (n : ℕ) (xs : Text) → All IsSymbol xs → All IsSymbol (take n xs)
All-take zero xs all = tt
All-take (suc n) [] all = tt
All-take (suc n) (x ∷ xs) (here, all) = (here, All-take n xs all)

All-drop : (n : ℕ) (xs : Text) → All IsSymbol xs → All IsSymbol (drop n xs)
All-drop zero xs all = all
All-drop (suc n) [] all = tt
All-drop (suc n) (x ∷ xs) (here, all) = All-drop n xs all

take_all : (n : ℕ) (xs : Text) → length xs ≡ n → take n xs ≡ xs
take_all zero [] e = refl
take_all zero (x ∷ xs) e = absurd (omega (arith, e))
take_all (suc n) [] e = refl
take_all (suc n) (x ∷ xs) e = ap (λ l. x ∷ l) (take_all n xs (omega (arith, e)))

clean-append : (xs ys : Text) → clean (xs ++ ys) ≡ clean xs ++ clean ys
unfolding clean keep
clean-append [] ys = refl
clean-append (x ∷ xs) ys = ground (arith, clean-append xs ys)

symbol_facts : (c : ℕ) → IsSymbol c → (is_separator c ≡ false) × (corrected c ≡ c) × (c < 97)
unfolding is_symbol
symbol_facts c e = ground (arith, e)

clean_symbols : (xs : Text) → All IsSymbol xs → clean xs ≡ xs
unfolding clean keep
clean_symbols [] all = refl
clean_symbols (x ∷ xs) (here, all) =
    let (kept, same, low) = symbol_facts x here in ground (arith, kept, same, clean_symbols xs all)

clean_hyphen : (xs : Text) → clean (b'-' ∷ xs) ≡ clean xs
unfolding clean keep is_separator any
clean_hyphen xs = refl

sum : List ℕ → ℕ
sum [] = 0
sum (n ∷ ns) = n + sum ns

-- Cleaning takes the hyphens out again.
clean-join_groups :
    (size : ℕ) (sizes : List ℕ) (raw : Text)
    → All IsSymbol raw
    → length raw ≡ sum (size ∷ sizes)
    → clean (join_groups (size ∷ sizes) raw) ≡ raw
unfolding sum join_groups
clean-join_groups size [] raw all n =
    ap clean (take_all size raw (omega (arith, n))) ∙ clean_symbols raw all
clean-join_groups size (next ∷ sizes) raw all n =
    clean-append (take size raw) _
    ∙ cc (
      clean_symbols (take size raw) (All-take size raw all),
      clean_hyphen (join_groups (next ∷ sizes) (drop size raw)),
      clean-join_groups next sizes (drop size raw) (All-drop size raw all)
          (omega (arith, length-drop size raw, n)),
    )
    ∙ take-drop size raw

abbrev pub IsAscii : ℕ → Type 0
IsAscii c = c < 97

All-append : (xs ys : Text) → All IsAscii xs → All IsAscii ys → All IsAscii (xs ++ ys)
All-append [] ys ax ay = ay
All-append (x ∷ xs) ys (here, ax) ay = (here, All-append xs ys ax ay)

symbols-IsAscii : (xs : Text) → All IsSymbol xs → All IsAscii xs
unfolding IsAscii
symbols-IsAscii [] all = tt
symbols-IsAscii (x ∷ xs) (here, all) = ((symbol_facts x here).2, symbols-IsAscii xs all)

join_groups-IsAscii :
    (sizes : List ℕ) (raw : Text) → All IsSymbol raw → All IsAscii (join_groups sizes raw)
unfolding join_groups IsAscii
join_groups-IsAscii [] raw all = tt
join_groups-IsAscii (size ∷ []) raw all = symbols-IsAscii (take size raw) (All-take size raw all)
join_groups-IsAscii (size ∷ n ∷ sizes) raw all =
    All-append (take size raw) _ (symbols-IsAscii (take size raw) (All-take size raw all))
      (omega arith, join_groups-IsAscii (n ∷ sizes) (drop size raw) (All-drop size raw all))

-- From 16 bytes a recovery code is always made, and it is read back, typed as it was shown, as the
-- characters that the bytes were written in, where the platform's upper-casing keeps a text of
-- characters below the lower-case letters as it is.
pub recovery_code_round_trip :
    (to_upper_case : Text → Text) (bytes : Bytes)
    → ((t : Text) → All IsAscii t → to_upper_case t ≡ t)
    → length bytes ≡ 16
    → (code : Text) × (recovery_code_of bytes ≡ some code)
      × (normalize_recovery_code to_upper_case code ≡ encode_base32 bytes)
unfolding recovery_code_of normalize_recovery_code encode_base32 format_recovery_code sum
recovery_code_round_trip to_upper_case bytes keeps n =
    let raw = encode_base32 bytes in
    let full : length raw ≡ 26 = length-encode_base32 bytes n in
    let plain : All IsSymbol raw =
      symbols (encode_bits 0 0 bytes) (encode_bits-IsIndex 0 0 bytes) in
    (
      format_recovery_code raw,
      ground (arith, full),
      ap clean (
            keeps (format_recovery_code raw)
              (join_groups-IsAscii (5 ∷ 5 ∷ 5 ∷ 5 ∷ 6 ∷ []) raw plain))
          ∙ clean-join_groups 5 (5 ∷ 5 ∷ 5 ∷ 6 ∷ []) raw plain full,
    )
