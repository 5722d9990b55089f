-- ===== src/Base/Places.antt =====
-- Where the rows of a changed table come from.
use mathlib.Core.Path.{◌≡◌, refl, subst, sym, ap}
use mathlib.Core.Logic.{◌⊎◌, inl, inr}
use mathlib.Core.Bool.{false, Bool, true}
use mathlib.Core.Option.{some}
use mathlib.Core.List.{List, [], ◌∷◌, ◌++◌}
use native.Mathlib.Omega.{arith}
use billsons_forms.Base.Tests.{Bool-cases}
use billsons_forms.Base.Rows.{find, update_where}
use billsons_forms.Base.Keys.{In, here, there}

module _ {ℓ} {A : Type ℓ} where
  -- A row of a table with one row more is that row or was there.
  pub In-of_append : {b : A} (xs : List A) (a : A) → In b (xs ++ a ∷ []) → (a ≡ b) ⊎ In b xs
  In-of_append [] a (here e) = inl e
  In-of_append [] a (there i) = elim i [ ]
  In-of_append (x ∷ xs) a (here e) = inr (here e)
  In-of_append (x ∷ xs) a (there i) = elim (In-of_append xs a i) [
    | inl e ↦ inl e
    | inr j ↦ inr (there j)
  ]

  -- A row of an updated table is one that the update selects, updated, or one that it leaves.
  pub data Updated (p : A → Bool) (f : A → A) (xs : List A) (b : A) : Type ℓ where
    changed : (a : A) → In a xs → p a ≡ true → f a ≡ b → Updated p f xs b
    left : In b xs → p b ≡ false → Updated p f xs b

  later_row :
      {p : A → Bool} {f : A → A} {x : A} {xs : List A} {b : A}
      → Updated p f xs b
      → Updated p f (x ∷ xs) b
  later_row (changed a i hit e) = changed a (there i) hit e
  later_row (left i miss) = left (there i) miss

  pub In-of_update_where :
      (p : A → Bool) (f : A → A) (xs : List A) {b : A}
      → In b (update_where p f xs)
      → Updated p f xs b
  unfolding update_where
  In-of_update_where p f [] i = elim i [ ]
  In-of_update_where p f (x ∷ xs) {b} (here e) = elim (Bool-cases (p x)) [
    | inl hit ↦ changed x (here refl) hit (ground arith)
    | inr miss ↦
        let same : x ≡ b = ground arith in left (here same) (subst (λ y. p y ≡ false) same miss)
  ]
  In-of_update_where p f (x ∷ xs) (there i) = later_row (In-of_update_where p f xs i)

  -- The row that a test singles out is found.
  pub find_alone :
      (q : A → Bool) (rows : List A) (e : A)
      → ((x : A) → In x rows → q x ≡ true → x ≡ e)
      → In e rows
      → q e ≡ true
      → find q rows ≡ some e
  unfolding find
  find_alone q [] e alone i hit = elim i [ ]
  find_alone q (x ∷ rows) e alone i hit = elim (Bool-cases (q x)) [
    | inl hit_x ↦ rw hit_x (ap some (alone x (here refl) hit_x))
    | inr miss ↦ rw miss (find_alone q rows e (λ y j. alone y (there j)) (later i miss) hit)
  ]
    where
      later : In e (x ∷ rows) → q x ≡ false → In e rows
      later (here same) miss = absurd (ground (arith, miss, subst (λ y. q y ≡ true) (sym same) hit))
      later (there j) miss = j

  -- An update of rows that the test passes over, before and after.
  pub find_past :
      (c q : A → Bool) (f : A → A) (rows : List A)
      → ((x : A) → In x rows → c x ≡ true → (q x ≡ false) × (q (f x) ≡ false))
      → find q (update_where c f rows) ≡ find q rows
  unfolding find update_where
  find_past c q f [] past = refl
  find_past c q f (x ∷ rows) past =
      let rest = find_past c q f rows (λ y i. past y (there i)) in
      elim (Bool-cases (c x)) [
        | inl hit ↦ ground (arith, hit, past x (here refl) hit, rest)
        | inr miss ↦ ground (arith, miss, rest)
      ]
