-- ===== src/Recovery/Encode.antt =====
-- recovery-code.ts: Crockford base32 and the grouping of its characters. The bit buffer is a 32-bit
-- integer, of which only the low twelve bits are read, so its sign plays no part: `x << k` is
-- `x * 2 ^ k % 2 ^ 32`, `| byte` adds a byte to eight zero bits, and `(x >> k) & 0x1f` is
-- `x / 2 ^ k % 32`.
use undergroundbb.Base.{
  not, any, ◌||◌, keep, Bool, ℕ, zero, suc, ◌+◌, ◌-◌, ◌*◌, ◌/◌, ◌%◌, ◌^◌, List, [], ◌∷◌, ◌++◌,
  Option, none, some, Text, Bytes, codes, ◌==◌, if◌then◌else◌, length, take, drop, map,
}

unfoldable pub alphabet : Text
alphabet = codes "0123456789ABCDEFGHJKMNPQRSTVWXYZ"

-- `ALPHABET[index]` at an index that is below its length.
unfoldable pub char_at : ℕ → Text → ℕ
char_at i [] = 0
char_at zero (c ∷ cs) = c
char_at (suc i) (c ∷ cs) = char_at i cs

-- The inner loop: what it writes, and the bits it leaves.
unfoldable pub emit : ℕ → ℕ → List ℕ
emit buffer (suc (suc (suc (suc (suc count))))) = (buffer / 2 ^ count) % 32 ∷ emit buffer count
emit buffer count = []

unfoldable pub left : ℕ → ℕ
left (suc (suc (suc (suc (suc count))))) = left count
left count = count

-- `(bitBuffer << 8) | byte`
unfoldable pub shift_in : ℕ → ℕ → ℕ
shift_in buffer byte = (buffer * 256) % 2 ^ 32 + byte

unfoldable pub last_index : ℕ → ℕ → List ℕ
last_index buffer zero = []
last_index buffer (suc count) = ((buffer * 2 ^ (5 - suc count)) % 2 ^ 32) % 32 ∷ []

-- The indices of the characters.
unfoldable pub encode_bits : ℕ → ℕ → Bytes → List ℕ
encode_bits buffer count [] = last_index buffer count
encode_bits buffer count (byte ∷ bytes) =
    emit (shift_in buffer byte) (count + 8)
    ++ encode_bits (shift_in buffer byte) (left (count + 8)) bytes

unfoldable pub encode_base32 : Bytes → Text
encode_base32 bytes = map (λ i. char_at i alphabet) (encode_bits 0 0 bytes)

-- `raw.slice(offset, offset + size)` for each size, joined by hyphens.
unfoldable pub join_groups : List ℕ → Text → Text
join_groups [] raw = []
join_groups (size ∷ []) raw = take size raw
join_groups (size ∷ n ∷ sizes) raw =
    take size raw ++ (b'-' ∷ join_groups (n ∷ sizes) (drop size raw))

unfoldable pub format_recovery_code : Text → Text
format_recovery_code raw = join_groups (5 ∷ 5 ∷ 5 ∷ 5 ∷ 6 ∷ []) raw

-- None where it throws.
unfoldable pub recovery_code_of : Bytes → Option Text
recovery_code_of bytes =
    let raw = encode_base32 bytes in
    if length raw == 26 then some (format_recovery_code raw) else none

-- `[\s-]`
unfoldable pub is_separator : ℕ → Bool
is_separator c =
    any (λ s. s == c)
      (b'-' ∷ 9 ∷ 10 ∷ 11 ∷ 12 ∷ 13 ∷ 32 ∷ 160 ∷ 5760 ∷ 8192 ∷ 8193 ∷ 8194 ∷ 8195 ∷ 8196 ∷ 8197
        ∷ 8198 ∷ 8199 ∷ 8200 ∷ 8201 ∷ 8202 ∷ 8232 ∷ 8233 ∷ 8239 ∷ 8287 ∷ 12288 ∷ 65279 ∷ [])

-- `.replace(/[IL]/g, '1').replace(/O/g, '0')`, at one character.
unfoldable pub corrected : ℕ → ℕ
corrected c = if c == b'I' || c == b'L' then b'1' else if c == b'O' then b'0' else c

unfoldable pub clean : Text → Text
clean t = map corrected (keep (λ c. not (is_separator c)) t)

-- `toUpperCase` is a parameter.
unfoldable pub normalize_recovery_code : (Text → Text) → Text → Text
normalize_recovery_code to_upper_case input = clean (to_upper_case input)
