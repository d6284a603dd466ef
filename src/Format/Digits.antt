-- ===== src/Format/Digits.antt =====
-- The digits of a printed number, read back.
use forensic_chain.Common.{
  ℕ, zero, suc, ◌+◌, ◌*◌, ◌/◌, ◌%◌, ◌<◌, List, [], ◌∷◌, ◌≡◌, ap, ◌∙◌, arith, ltb, Bool-cases, inl,
  inr,
}
use forensic_chain.Format.{digits_from, digits}

-- The number that a list of digits stands for, after the number before it.
pub value_from : ℕ → List ℕ → ℕ
value_from v [] = v
value_from v (d ∷ ds) = value_from (10 * v + d) ds

value-digits_from :
    (fuel n : ℕ) (acc : List ℕ)
    → n < fuel
    → value_from 0 (digits_from fuel n acc) ≡ value_from n acc
unfolding value_from digits_from
value-digits_from zero n acc h = elim h [ ]
value-digits_from (suc fuel) n acc h = elim (Bool-cases (ltb n 10)) [
  | inl small ↦ rw small (ap (λ v. value_from v acc) (omega arith))
  | inr large ↦ rw large (
      value-digits_from fuel (n / 10) (n % 10 ∷ acc) (ground arith)
      ∙ ap (λ v. value_from v acc) (omega arith))
]

-- A printed number reads back as itself: the digits of every number stand for it.
pub value-digits : (n : ℕ) → value_from 0 (digits n) ≡ n
unfolding digits value_from
value-digits n = value-digits_from (suc n) n [] (omega arith)
