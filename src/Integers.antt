-- ===== src/Integers.antt =====
-- Python's `int(text)`: blanks around, a sign, decimal digits of any script with single underscores
-- between them, and no more than 4300 of them.
pub mod Laws
mod Examples
use billsons_forms.Base.{
  Bool, Option, Text, [], false, if◌then◌else◌, length, ltb, nat_beq, nat_eq, none, some, suc,
  text_beq, text_eq, true, zero, ℕ, ◌&&◌, ◌*◌, ◌+◌, ◌-◌, ◌==◌, ◌∷◌,
}
use billsons_forms.Strings.{Unicode, count_char, strip}

-- A ValueError, a negative number, or a natural one.
pub data ParsedInt : Type 0 where
  value_error negative : ParsedInt
  natural : ℕ → ParsedInt

abbrev positive_int : Option ℕ → ParsedInt
positive_int none = value_error
positive_int (some n) = natural n

abbrev negative_int : Option ℕ → ParsedInt
negative_int none = value_error
negative_int (some zero) = natural 0
negative_int (some (suc n)) = negative

module _ (u : Unicode) where
  -- The digits after a value and, where `after_digit`, a digit.
  unfoldable pub int_digits : Bool → ℕ → Text → Option ℕ
  int_digits after_digit n [] = if after_digit then some n else none
  int_digits after_digit n (c ∷ cs) = elim (u.digit c) [
    | some d ↦ int_digits true (n * 10 + d) cs
    | none ↦ if c == b'_' && after_digit then int_digits false n cs else none
  ]

  abbrev unsigned_int : Text → Option ℕ
  unsigned_int text =
      if ltb 4300 (length text - count_char b'_' text) then none else int_digits false 0 text

  abbrev signed_int : Text → ParsedInt
  signed_int [] = value_error
  signed_int (c ∷ cs) =
      if c == b'-'
      then negative_int (unsigned_int cs)
      else if c == b'+'
      then positive_int (unsigned_int cs)
      else positive_int (unsigned_int (c ∷ cs))

  unfoldable pub parse_int : Text → ParsedInt
  parse_int text = signed_int (strip u text)
