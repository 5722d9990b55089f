-- ===== src/Integers/Laws.antt =====
-- What `str(n)` prints, `int` reads back: the fuel of `decimal` is enough.
use billsons_forms.Base.{
  Bool, Bool-cases, Text, [], ap, arith, false, inl, inr, ltb, refl, some, suc, true, zero, ℕ, ◌%◌,
  ◌*◌, ◌+◌, ◌/◌, ◌<◌, ◌∙◌, ◌∷◌, ◌≡◌,
}
use billsons_forms.Strings.{Unicode, decimal, decimal_from, digit_of}
use billsons_forms.Integers.{int_digits}

module _ (u : Unicode) (ascii_digits : (d : ℕ) → d < 10 → u.digit (b'0' + d) ≡ some d) where
  int_digits-step :
      (after : Bool) (n d : ℕ) (acc : Text)
      → d < 10
      → int_digits u after n ((b'0' + d) ∷ acc) ≡ int_digits u true (n * 10 + d) acc
  unfolding int_digits
  int_digits-step after n d acc small = rw (ascii_digits d small, int_digits) refl

  int_digits-decimal_from :
      (fuel m : ℕ) (after : Bool) (acc : Text)
      → m < fuel
      → int_digits u after 0 (decimal_from fuel m acc) ≡ int_digits u true m acc
  unfolding decimal_from digit_of
  int_digits-decimal_from zero m after acc enough = absurd (omega arith)
  int_digits-decimal_from (suc fuel) m after acc enough = elim (Bool-cases (ltb m 10)) [
    | inl last ↦ rw last (
        int_digits-step after 0 (m % 10) acc (ground arith)
        ∙ ap (λ (n : ℕ). int_digits u true n acc) (ground (arith, last)))
    | inr more ↦ rw more (
        int_digits-decimal_from fuel (m / 10) after ((b'0' + m % 10) ∷ acc) (ground (arith, more))
        ∙ (int_digits-step true (m / 10) (m % 10) acc (omega arith)
            ∙ ap (λ (n : ℕ). int_digits u true n acc) (omega arith)))
  ]

  -- The digits that `str(n)` prints are those of `n`, where ASCII digits have their values.
  pub int_digits-decimal : (n : ℕ) → int_digits u false 0 (decimal n) ≡ some n
  unfolding decimal int_digits
  int_digits-decimal n = int_digits-decimal_from (suc n) n false [] (omega arith)
