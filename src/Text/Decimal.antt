-- ===== src/Text/Decimal.antt =====
-- The decimal of a number is read back, so its fuel is enough.
use fastapi_better_auth.Base.{
  ℕ, zero, suc, ◌+◌, ◌/◌, ◌%◌, ◌<◌, ◌≡◌, ◌∙◌, ap, [], ◌∷◌, arith, ltb, Bool-cases, inl, inr,
}
use fastapi_better_auth.Text.{Str, decimal_from, decimal, digits_from, to_int}

decimal_from-digits :
    (f n : ℕ) (acc : Str) → n < f → digits_from 0 (decimal_from f n acc) ≡ digits_from n acc
unfolding decimal_from digits_from
decimal_from-digits zero n acc h = absurd (omega arith)
decimal_from-digits (suc f) n acc h = elim (Bool-cases (ltb n 10)) [
  | inl one ↦ rw one (ap (λ k. digits_from k acc) (omega arith))
  | inr more ↦ rw more (
      decimal_from-digits f (n / 10) ((48 + n % 10) ∷ acc) (ground (arith, more, h))
      ∙ ap (λ k. digits_from k acc) (omega arith))
]

-- A number's text is read as that number.
pub to_int-decimal : (n : ℕ) → to_int (decimal n) ≡ n
unfolding to_int decimal digits_from
to_int-decimal n = decimal_from-digits (suc n) n [] (omega arith)
