-- ===== src/Email/Laws.antt =====
-- What the body of a mail says of the fields.
use mathlib.Core.List.{append_assoc}
use billsons_forms.Base.{List, Text, [], ap, lit, map, refl, subst, sym, ◌++◌, ◌∷◌, ◌≡◌}
use billsons_forms.Strings.{Unicode, join}
use billsons_forms.Email.{SmtpLibrary, build_submission_email_body}

-- The text has a line for each field, in order, which begins with a line break and holds the name and
-- the value that was given.
pub data IsListing {Value : Type 0} (show : Value → Text)
    : List (Text × Value) → Text → Type 0 where
  no_field : IsListing show [] []
  one_field :
      {fields : List (Text × Value)} {rest : Text} (key : Text) (value : Value)
      → IsListing show fields rest
      → IsListing show ((key, value) ∷ fields) (10 ∷ (key ++ lit ": " ++ show value) ++ rest)

-- The heading, an empty line where there is a field, and the lines of the fields.
pub record IsReport {Value : Type 0} (show : Value → Text) (fields : List (Text × Value))
    (body : Text) : Type 0 where
  pub lines : Text
  pub listed : IsListing show fields lines
  pub said : body ≡ lit "New form submission" ++ 10 ∷ lines

right_empty : (t : Text) → t ++ [] ≡ t
right_empty [] = refl
right_empty (c ∷ t) = ap (λ x. c ∷ x) (right_empty t)

-- Lines that are joined behind a first one each begin with a line break.
join_behind :
    (first : Text) (lines : List Text)
    → join (10 ∷ []) (first ∷ lines) ≡ first ++ join (10 ∷ []) ([] ∷ lines)
unfolding join
join_behind first [] = sym (right_empty first)
join_behind first (l ∷ lines) = append_assoc first (10 ∷ []) (join (10 ∷ []) (l ∷ lines))

module _ {Value : Type 0} (u : Unicode) (smtp : SmtpLibrary Value) where
  abbrev lines_of : List (Text × Value) → List Text
  lines_of fields = map (λ (key, value). key ++ lit ": " ++ smtp.show value) fields

  joined-IsListing :
      (fields : List (Text × Value))
      → IsListing smtp.show fields (join (10 ∷ []) ([] ∷ lines_of fields))
  unfolding join
  joined-IsListing [] = no_field
  joined-IsListing ((key, value) ∷ fields) =
      subst (λ t. IsListing smtp.show ((key, value) ∷ fields) (10 ∷ t))
        (sym (join_behind (key ++ lit ": " ++ smtp.show value) (lines_of fields)))
        (one_field key value (joined-IsListing fields))

  pub build_submission_email_body-IsReport :
      (fields : List (Text × Value))
      → IsReport smtp.show fields (build_submission_email_body u smtp fields)
  unfolding build_submission_email_body join lit
  build_submission_email_body-IsReport fields = record {
    lines = join (10 ∷ []) ([] ∷ lines_of fields);
    listed = joined-IsListing fields;
    said = refl;
  }
