-- ===== src/Tests/Recovery.antt =====
-- A recovery code of sixteen bytes.
use undergroundbb.Base.{
  ◌+◌, ◌*◌, ◌%◌, ◌^◌, ◌-◌, ltb, if◌then◌else◌, ◌≡◌, refl, [], ◌∷◌, some, Text, Bytes, codes, All,
  arith, keep, any, map,
}
use undergroundbb.Recovery.Encode.{
  alphabet, char_at, emit, left, shift_in, last_index, encode_bits, encode_base32, join_groups,
  format_recovery_code, recovery_code_of, is_separator, corrected, clean, normalize_recovery_code,
}
use undergroundbb.Recovery.Value.{IsByte, value, padding, value-encode_bits}
use undergroundbb.Recovery.Lossless.{encode_base32-injective}
use undergroundbb.Recovery.RoundTrip.{IsAscii, recovery_code_round_trip}

program : Unit {0}
unfolding alphabet char_at emit left shift_in last_index encode_bits encode_base32 join_groups
    format_recovery_code recovery_code_of is_separator corrected clean normalize_recovery_code keep
    any
program = tt

abbrev drawn : Bytes
drawn = 255 ∷ 0 ∷ 17 ∷ 34 ∷ 51 ∷ 68 ∷ 85 ∷ 102 ∷ 119 ∷ 136 ∷ 153 ∷ 170 ∷ 187 ∷ 204 ∷ 221 ∷ 255 ∷ []

shown : recovery_code_of drawn ≡ some (codes "ZW012-8HK8H-APCXW-8K6NB-QK6XZW")
unfolding program
shown = refl

drawn_bytes : All IsByte drawn
drawn_bytes = omega arith

encode_base32-injective_example : drawn ≡ drawn
encode_base32-injective_example =
    encode_base32-injective drawn drawn refl refl drawn_bytes drawn_bytes refl

-- Typed in lower case.
upper : Text → Text
upper t = map (λ c. if ltb c 97 then c else if ltb c 123 then c - 32 else c) t

upper_keeps : (t : Text) → All IsAscii t → upper t ≡ t
unfolding upper
upper_keeps [] all = refl
upper_keeps (c ∷ t) (low, all) = ground (arith, low, upper_keeps t all)

recovery_code_round_trip_example :
    (code : Text) × (recovery_code_of drawn ≡ some code)
    × (normalize_recovery_code upper code ≡ encode_base32 drawn)
recovery_code_round_trip_example = recovery_code_round_trip upper drawn upper_keeps refl

value-encode_bits_example :
    value 32 0 (encode_bits 0 0 drawn)
    ≡ value 256 (0 * 2 ^ 0 + 0 % 2 ^ 0) drawn * 2 ^ padding 0 drawn
value-encode_bits_example = value-encode_bits 0 0 0 drawn (omega arith) drawn_bytes
