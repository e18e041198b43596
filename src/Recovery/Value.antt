-- ===== src/Recovery/Value.antt =====
-- A recovery code as a number: no bit of the random bytes is lost.
use undergroundbb.Base.{
  ℕ, zero, suc, ◌+◌, ◌-◌, ◌*◌, ◌/◌, ◌%◌, ◌^◌, ◌<◌, ◌≡◌, ap, ◌∙◌, List, [], ◌∷◌, Bytes, All, arith,
}
use undergroundbb.Recovery.Encode.{emit, left, shift_in, last_index, encode_bits}

-- The number whose digits in the base follow those of `acc`.
unfoldable pub value : ℕ → ℕ → List ℕ → ℕ
value base acc [] = acc
value base acc (x ∷ xs) = value base (acc * base + x) xs

-- The zero bits that fill the last character.
unfoldable pub padding : ℕ → Bytes → ℕ
padding zero [] = 0
padding (suc count) [] = 5 - suc count
padding count (byte ∷ bytes) = padding (left (count + 8)) bytes

abbrev pub IsByte : ℕ → Type 0
IsByte b = b < 256

-- Where every byte is below 256 and fewer than five bits were left over, the characters of a code are
-- the base-32 digits of the number whose base-256 digits are the bytes, shifted up by the zero bits that
-- fill the last character, after the digits `acc` that were written before and with the low bits of the
-- buffer that were not.
pub value-encode_bits :
    (acc buffer count : ℕ) (bytes : Bytes)
    → count < 5
    → All IsByte bytes
    → value 32 acc (encode_bits buffer count bytes)
      ≡ value 256 (acc * 2 ^ count + buffer % 2 ^ count) bytes * 2 ^ padding count bytes
unfolding value padding encode_bits last_index emit left shift_in
value-encode_bits acc buffer zero [] low all = omega arith
value-encode_bits acc buffer (suc zero) [] low all = omega arith
value-encode_bits acc buffer (suc (suc zero)) [] low all = omega arith
value-encode_bits acc buffer (suc (suc (suc zero))) [] low all = omega arith
value-encode_bits acc buffer (suc (suc (suc (suc zero)))) [] low all = omega arith
value-encode_bits acc buffer (suc (suc (suc (suc (suc count))))) [] low all =
    absurd (omega (arith, low))
value-encode_bits acc buffer zero (b ∷ bytes) low (is, all) =
    let next = shift_in buffer b in
    value-encode_bits (acc * 32 + (next / 2 ^ 3) % 32) next 3 bytes (omega arith) all
    ∙ ap (λ t. value 256 t bytes * 2 ^ padding 3 bytes) (omega (arith, is))
value-encode_bits acc buffer (suc zero) (b ∷ bytes) low (is, all) =
    let next = shift_in buffer b in
    value-encode_bits (acc * 32 + (next / 2 ^ 4) % 32) next 4 bytes (omega arith) all
    ∙ ap (λ t. value 256 t bytes * 2 ^ padding 4 bytes) (omega (arith, is))
value-encode_bits acc buffer (suc (suc zero)) (b ∷ bytes) low (is, all) =
    let next = shift_in buffer b in
    value-encode_bits ((acc * 32 + (next / 2 ^ 5) % 32) * 32 + (next / 2 ^ 0) % 32) next 0 bytes
      (omega arith) all
    ∙ ap (λ t. value 256 t bytes * 2 ^ padding 0 bytes) (omega (arith, is))
value-encode_bits acc buffer (suc (suc (suc zero))) (b ∷ bytes) low (is, all) =
    let next = shift_in buffer b in
    value-encode_bits ((acc * 32 + (next / 2 ^ 6) % 32) * 32 + (next / 2 ^ 1) % 32) next 1 bytes
      (omega arith) all
    ∙ ap (λ t. value 256 t bytes * 2 ^ padding 1 bytes) (omega (arith, is))
value-encode_bits acc buffer (suc (suc (suc (suc zero)))) (b ∷ bytes) low (is, all) =
    let next = shift_in buffer b in
    value-encode_bits ((acc * 32 + (next / 2 ^ 7) % 32) * 32 + (next / 2 ^ 2) % 32) next 2 bytes
      (omega arith) all
    ∙ ap (λ t. value 256 t bytes * 2 ^ padding 2 bytes) (omega (arith, is))
value-encode_bits acc buffer (suc (suc (suc (suc (suc count))))) (b ∷ bytes) low all =
    absurd (omega (arith, low))
