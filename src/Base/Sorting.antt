-- ===== src/Base/Sorting.antt =====
-- `ORDER BY`, and `ORDER BY … DESC LIMIT n` for a number. Rows of which neither comes first stay in the
-- order of the table.
use mathlib.Core.Path.{refl, subst, ap, ◌≡◌, ◌∙◌}
use mathlib.Core.Logic.{◌⊎◌, inl, inr}
use mathlib.Core.Bool.{Bool}
use mathlib.Core.List.{List, [], ◌∷◌}
use Prim.Native.Nat.{ℕ, zero, suc, min, ◌≤◌}
use native.Mathlib.Omega.{arith}
use billsons_forms.Base.Tests.{Bool-cases, ltb, if◌then◌else◌}
use billsons_forms.Base.Lists.{All, All-map, take, length}
use billsons_forms.Base.Keys.{All-In, In, here, there}

module _ {ℓ} {A : Type ℓ} (first : A → A → Bool) where
  unfoldable pub put : A → List A → List A
  put a [] = a ∷ []
  put a (b ∷ bs) = let rest = put a bs in if first b a then b ∷ rest else a ∷ b ∷ bs

  unfoldable pub order_by : List A → List A
  order_by [] = []
  order_by (a ∷ others) = put a (order_by others)

  In-put_here : (a : A) (xs : List A) → In a (put a xs)
  unfolding put
  In-put_here a [] = here refl
  In-put_here a (b ∷ bs) = elim (Bool-cases (first b a)) [
    | inl later ↦ rw later (there (In-put_here a bs))
    | inr now ↦ rw now (here refl)
  ]

  In-put_there : {x : A} (a : A) (xs : List A) → In x xs → In x (put a xs)
  unfolding put
  In-put_there a [] i = elim i [ ]
  In-put_there a (b ∷ bs) i = elim (Bool-cases (first b a)) [
    | inr now ↦ rw now (there i)
    | inl later ↦ rw later (elim i [ here e ↦ here e | there j ↦ there (In-put_there a bs j) ])
  ]

  -- Sorting loses no row.
  pub In-order_by : {x : A} (xs : List A) → In x xs → In x (order_by xs)
  unfolding order_by
  In-order_by [] i = elim i [ ]
  In-order_by (a ∷ others) (here e) = subst (λ x. In x (order_by (a ∷ others))) e (In-put_here a _)
  In-order_by (a ∷ others) (there i) = In-put_there a _ (In-order_by others i)

  All-put {κ} : (P : A → Type κ) (a : A) (xs : List A) → P a → All P xs → All P (put a xs)
  unfolding put
  All-put P a [] pa h = (pa, tt)
  All-put P a (b ∷ bs) pa h = elim (Bool-cases (first b a)) [
    | inl later ↦ rw later (h.0, All-put P a bs pa h.1)
    | inr now ↦ rw now (pa, h)
  ]

  -- Nor does it add one.
  pub All-order_by {κ} : (P : A → Type κ) (xs : List A) → All P xs → All P (order_by xs)
  unfolding order_by
  All-order_by P [] h = tt
  All-order_by P (a ∷ others) h = All-put P a _ h.0 (All-order_by P others h.1)

  length-put : (a : A) (xs : List A) → length (put a xs) ≡ suc (length xs)
  unfolding put
  length-put a [] = refl
  length-put a (b ∷ bs) = ground (arith, length-put a bs)

  length-order_by : (xs : List A) → length (order_by xs) ≡ length xs
  unfolding order_by
  length-order_by [] = refl
  length-order_by (a ∷ others) = length-put a _ ∙ ap suc (length-order_by others)

length-take {ℓ} : {A : Type ℓ} (n : ℕ) (xs : List A) → length (take n xs) ≡ min n (length xs)
length-take zero xs = omega arith
length-take (suc n) [] = omega arith
length-take (suc n) (x ∷ xs) = omega (arith, length-take n xs)

module _ {ℓ} {A : Type ℓ} (key : A → ℕ) where
  abbrev pub is_newer : A → A → Bool
  is_newer b a = ltb (key a) (key b)

  abbrev pub newest : ℕ → List A → List A
  newest limit xs = take limit (order_by is_newer xs)

  abbrev Descends : List A → Type ℓ
  Descends [] = Unit
  Descends (x ∷ xs) = All (λ y. key y ≤ key x) xs × Descends xs

  put-Descends : (a : A) (xs : List A) → Descends xs → Descends (put is_newer a xs)
  unfolding put
  put-Descends a [] h = (tt, tt)
  put-Descends a (b ∷ bs) h = elim (Bool-cases (is_newer b a)) [
    | inl later ↦ rw later (
      All-put is_newer (λ y. key y ≤ key b) a bs (ground (arith, later)) h.0,
      put-Descends a bs h.1,
    )
    | inr now ↦
        let below : key b ≤ key a = ground (arith, now) in
        rw now ((below, All-map _ _ bs (λ y le. omega (arith, le, below)) h.0), h)
  ]

  order_by-Descends : (xs : List A) → Descends (order_by is_newer xs)
  unfolding order_by
  order_by-Descends [] = tt
  order_by-Descends (a ∷ others) = put-Descends a _ (order_by-Descends others)

  take-newest :
      {x : A} (limit : ℕ) (xs : List A)
      → Descends xs
      → In x xs
      → In x (take limit xs) ⊎ All (λ y. key x ≤ key y) (take limit xs)
  take-newest zero xs h i = inr tt
  take-newest (suc n) [] h i = inr tt
  take-newest (suc n) (y ∷ ys) h (here e) = inl (here e)
  take-newest (suc n) (y ∷ ys) h (there i) = elim (take-newest n ys h.1 i) [
    | inl j ↦ inl (there j)
    | inr older ↦ inr (All-In (λ z. key z ≤ key y) ys h.0 i, older)
  ]

  -- A row that is not among the newest is no newer than any of them.
  pub newest_complete :
      {x : A} (limit : ℕ) (xs : List A)
      → In x xs
      → In x (newest limit xs) ⊎ All (λ y. key x ≤ key y) (newest limit xs)
  newest_complete limit xs i =
      take-newest limit _ (order_by-Descends xs) (In-order_by is_newer xs i)

  All-take {κ} : (P : A → Type κ) (n : ℕ) (xs : List A) → All P xs → All P (take n xs)
  All-take P zero xs h = tt
  All-take P (suc n) [] h = tt
  All-take P (suc n) (x ∷ xs) h = (h.0, All-take P n xs h.1)

  -- What all rows satisfy, the newest do.
  pub All-newest {κ} :
      (P : A → Type κ) (limit : ℕ) (xs : List A) → All P xs → All P (newest limit xs)
  All-newest P limit xs h = All-take P limit _ (All-order_by is_newer P xs h)

  pub length-newest : (limit : ℕ) (xs : List A) → length (newest limit xs) ≡ min limit (length xs)
  length-newest limit xs =
      length-take limit (order_by is_newer xs) ∙ ap (min limit) (length-order_by is_newer xs)
