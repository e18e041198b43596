-- ===== src/Wire/Decimal.antt =====
-- `String(n)` of a non-negative integer below 1e21: its decimal digits, most significant first. From
-- 1e21 on `String` writes an exponent, which is not modelled.
use undergroundbb.Base.{
  ℕ, zero, suc, ◌+◌, ◌*◌, ◌-◌, ◌/◌, ◌%◌, ◌<◌, ◌≡◌, sym, ◌∙◌, ap, inl, inr, [], ◌∷◌, arith, Text,
  ltb, if◌then◌else◌, Bool-cases,
}

-- The digits of `n`, in front of those already written; `n` halves of fuel are more than enough.
digits_onto : ℕ → ℕ → Text → Text
digits_onto zero n out = out
digits_onto (suc fuel) n out =
    let digit = n % 10 + 48 in
    let more = digits_onto fuel (n / 10) (digit ∷ out) in if ltb n 10 then digit ∷ out else more

unfoldable pub decimal : ℕ → Text
unfolding digits_onto
decimal n = digits_onto (suc n) n []

-- The number that a list of decimal digits stands for.
value : ℕ → Text → ℕ
value acc [] = acc
value acc (c ∷ s) = value (acc * 10 + (c - 48)) s

value-digits_onto :
    (fuel n : ℕ) (out : Text) → n < fuel → value 0 (digits_onto fuel n out) ≡ value n out
unfolding digits_onto value
value-digits_onto zero n out h = absurd (omega arith)
value-digits_onto (suc fuel) n out h = elim (Bool-cases (ltb n 10)) [
  | inl e ↦ rw e (ap (λ k. value k out) (ground arith))
  | inr e ↦ rw e (
      value-digits_onto fuel (n / 10) ((n % 10 + 48) ∷ out) (ground arith)
      ∙ ap (λ k. value k out) (omega arith))
]

-- Different numbers are written differently.
pub decimal_injective : (m n : ℕ) → decimal m ≡ decimal n → m ≡ n
unfolding decimal value
decimal_injective m n h =
    sym (value-digits_onto (suc m) m [] (omega arith))
    ∙ ap (value 0) h
    ∙ value-digits_onto (suc n) n [] (omega arith)
