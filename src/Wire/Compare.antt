-- ===== src/Wire/Compare.antt =====
-- `bytesEqual` (`sameBytes` in other files of lib/crypto): every byte is read before the answer.
use undergroundbb.Base.{
  ℕ, ◌≡◌, refl, ◌↔◌, inl, inr, Bool, true, false, not, [], ◌∷◌, bit_or, bit_xor, arith, Bytes,
  length, ◌==◌, if◌then◌else◌, Bool-cases,
}
use undergroundbb.Wire.Bits.{bit_xor-eq-zero, bit_xor_self, bit_or-eq-zero}

-- `diff |= a[i] ^ b[i]` over the indices of `a`.
difference : ℕ → Bytes → Bytes → ℕ
difference diff [] b = diff
difference diff (x ∷ a) [] = diff
difference diff (x ∷ a) (y ∷ b) = difference (bit_or diff (bit_xor x y)) a b

unfoldable pub bytes_equal : Bytes → Bytes → Bool
unfolding difference
bytes_equal a b = if not (length a == length b) then false else difference 0 a b == 0

difference_sound :
    (diff : ℕ) (a b : Bytes) → length a ≡ length b → difference diff a b ≡ 0 → (diff ≡ 0) × (a ≡ b)
unfolding difference
difference_sound diff [] [] e h = (h, refl)
difference_sound diff [] (y ∷ b) e h = absurd (omega arith)
difference_sound diff (x ∷ a) [] e h = absurd (omega arith)
difference_sound diff (x ∷ a) (y ∷ b) e h =
    let (zeros, same) = difference_sound (bit_or diff (bit_xor x y)) a b (omega arith) h in
    let (none_before, same_here) = bit_or-eq-zero diff (bit_xor x y) zeros in
    (none_before, cc (same, bit_xor-eq-zero x y same_here))

difference_self : (a : Bytes) → difference 0 a a ≡ 0
unfolding difference
difference_self [] = refl
difference_self (x ∷ a) = rw bit_xor_self (difference_self a)

bytes_equal_sound : (a b : Bytes) → bytes_equal a b ≡ true → a ≡ b
unfolding bytes_equal
bytes_equal_sound a b h = elim (Bool-cases (length a == length b)) [
  | inl e ↦ (difference_sound 0 a b (ground arith) (ground arith)).1
  | inr e ↦ cc (rw e at h)
]

bytes_equal_refl : (a : Bytes) → bytes_equal a a ≡ true
unfolding bytes_equal
bytes_equal_refl a = ground (arith, difference_self a)

-- The comparison that reads every byte answers exactly when the arrays are equal.
pub bytes_equal_iff : (a b : Bytes) → (bytes_equal a b ≡ true) ↔ (a ≡ b)
bytes_equal_iff a b = (bytes_equal_sound a b, λ e. rw e (bytes_equal_refl b))
