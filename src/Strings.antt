-- ===== src/Strings.antt =====
-- The operations of Python's `str` that the program uses, on texts as lists of code points. What
-- the Unicode database says of a character is a parameter.
use mathlib.Core.List.{reverse}
use billsons_forms.Base.{
  Bool, List, Option, Text, [], false, if◌then◌else◌, leb, ltb, nat_eq, none, some, suc, text_eq,
  true, zero, ℕ, ◌%◌, ◌&&◌, ◌++◌, ◌+◌, ◌/◌, ◌==◌, ◌||◌, ◌∷◌,
}

-- `str.isspace` of a character, `str.lower`, `str.upper`, `unicodedata.category(c).startswith("C")`,
-- and `unicodedata.decimal(c)`, `none` for what is no decimal digit.
pub record Unicode : Type 0 where
  pub is_space : ℕ → Bool
  pub lower : Text → Text
  pub upper : Text → Text
  pub is_other : ℕ → Bool
  pub digit : ℕ → Option ℕ

-- `bool(value)`.
abbrev pub truthy : Text → Bool
truthy [] = false
truthy (c ∷ cs) = true

-- `value or ""` for an optional text, and `value or None` for a text.
abbrev pub or_empty : Option Text → Text
or_empty none = []
or_empty (some t) = t

abbrev pub or_none : Text → Option Text
or_none [] = none
or_none (c ∷ cs) = some (c ∷ cs)

-- `bool(value)` of an optional text.
abbrev pub truthy_option : Option Text → Bool
truthy_option none = false
truthy_option (some t) = truthy t

unfoldable pub starts_with : Text → Text → Bool
starts_with cs [] = true
starts_with [] (p ∷ ps) = false
starts_with (c ∷ cs) (p ∷ ps) = c == p && starts_with cs ps

unfoldable pub ends_with : Text → Text → Bool
unfolding starts_with
ends_with cs suffix = starts_with (reverse cs) (reverse suffix)

-- `needle in text`.
unfoldable pub contains_text : Text → Text → Bool
unfolding starts_with
contains_text [] needle = starts_with [] needle
contains_text (c ∷ cs) needle = starts_with (c ∷ cs) needle || contains_text cs needle

unfoldable pub count_char : ℕ → Text → ℕ
count_char c [] = 0
count_char c (x ∷ xs) = (if x == c then 1 else 0) + count_char c xs

-- `text.split(c)` for a one-character separator.
split_at : Bool → ℕ → List Text → List Text
split_at cut y [] = [] ∷ []
split_at cut y (w ∷ ws) = if cut then [] ∷ w ∷ ws else (y ∷ w) ∷ ws

unfoldable pub split_char : ℕ → Text → List Text
unfolding split_at
split_char c [] = [] ∷ []
split_char c (x ∷ xs) = split_at (x == c) x (split_char c xs)

unfoldable pub join : Text → List Text → Text
join sep [] = []
join sep (t ∷ []) = t
join sep (t ∷ u ∷ us) = t ++ sep ++ join sep (u ∷ us)

-- The text before the last `c`, and the text after it; `none` where there is no `c`.
unfoldable pub split_last : ℕ → Text → Option (Text × Text)
split_last c [] = none
split_last c (x ∷ xs) = elim (split_last c xs) [
  | some (before, after) ↦ some (x ∷ before, after)
  | none ↦ if x == c then some ([], xs) else none
]

-- The text before the first `c`, and the text after it.
unfoldable pub split_first : ℕ → Text → Option (Text × Text)
split_first c [] = none
split_first c (x ∷ xs) =
    let rest = split_first c xs in
    if x == c
    then some ([], xs)
    else elim rest [ some (before, after) ↦ some (x ∷ before, after) | none ↦ none ]

-- The line boundaries of `str.splitlines`.
abbrev is_line_break : ℕ → Bool
is_line_break c =
    leb 10 c && leb c 13 || leb 28 c && leb c 30 || c == 0x85 || c == 0x2028 || c == 0x2029

-- The state is the line so far, reversed, and whether the last character was a carriage return.
lines_from : Text → Bool → Text → List Text
lines_from [] after_cr [] = []
lines_from (a ∷ acc) after_cr [] = reverse (a ∷ acc) ∷ []
lines_from acc after_cr (c ∷ cs) =
    let joined = lines_from acc false cs in
    let broken = reverse acc ∷ lines_from [] (c == 13) cs in
    let longer = lines_from (c ∷ acc) false cs in
    if after_cr && c == 10 then joined else if is_line_break c then broken else longer

unfoldable pub splitlines : Text → List Text
unfolding lines_from
splitlines text = lines_from [] false text

-- The decimal digits of a number, `str(n)`, and `int(text)` for a text of ASCII digits.
unfoldable pub digit_of : ℕ → ℕ
digit_of n = b'0' + n % 10

unfoldable pub decimal_from : ℕ → ℕ → Text → Text
unfolding digit_of
decimal_from zero n acc = acc
decimal_from (suc fuel) n acc =
    let more = decimal_from fuel (n / 10) (digit_of n ∷ acc) in
    if ltb n 10 then digit_of n ∷ acc else more

-- A number has no more digits than its value, so the fuel is enough.
unfoldable pub decimal : ℕ → Text
unfolding decimal_from
decimal n = decimal_from (suc n) n []

module _ (u : Unicode) where
  unfoldable pub lstrip : Text → Text
  lstrip [] = []
  lstrip (c ∷ cs) = if u.is_space c then lstrip cs else c ∷ cs

  unfoldable pub strip : Text → Text
  unfolding lstrip
  strip text = reverse (lstrip (reverse (lstrip text)))

-- `text.rstrip(c)` for one character.
unfoldable pub drop_char : ℕ → Text → Text
drop_char c [] = []
drop_char c (x ∷ xs) = if x == c then drop_char c xs else x ∷ xs

unfoldable pub rstrip_char : ℕ → Text → Text
unfolding drop_char
rstrip_char c text = reverse (drop_char c (reverse text))
