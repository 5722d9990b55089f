-- ===== src/Base/Rows.antt =====
-- Tables as lists of rows, with the selections that the queries make.
use Prim.Native.Nat.{ℕ, suc, ◌+◌}
use mathlib.Core.Path.{◌≡◌, refl, ap, subst}
use mathlib.Core.Logic.{inl, inr}
use mathlib.Core.Bool.{Bool, true, false}
use mathlib.Core.Option.{Option, none, some}
use mathlib.Core.List.{List, [], ◌∷◌, ◌++◌}
use native.Mathlib.Omega.{arith}
use billsons_forms.Base.Tests.{if◌then◌else◌, Bool-cases}
use billsons_forms.Base.Lists.{All, length}

module _ {ℓ} {A : Type ℓ} where
  -- `query.filter(p).first()`.
  unfoldable pub find : (A → Bool) → List A → Option A
  find p [] = none
  find p (x ∷ xs) = if p x then some x else find p xs

  -- `query.filter(p).all()`.
  unfoldable pub select : (A → Bool) → List A → List A
  select p [] = []
  select p (x ∷ xs) = let rest = select p xs in if p x then x ∷ rest else rest

  -- `UPDATE … WHERE p SET f`.
  unfoldable pub update_where : (A → Bool) → (A → A) → List A → List A
  update_where p f [] = []
  update_where p f (x ∷ xs) = (if p x then f x else x) ∷ update_where p f xs

  -- `DELETE … WHERE p`.
  unfoldable pub delete_where : (A → Bool) → List A → List A
  delete_where p [] = []
  delete_where p (x ∷ xs) = let rest = delete_where p xs in if p x then rest else x ∷ rest

  unfoldable pub count_where : (A → Bool) → List A → ℕ
  count_where p [] = 0
  count_where p (x ∷ xs) = (if p x then 1 else 0) + count_where p xs

  pub length-delete_where :
      (p : A → Bool) (xs : List A) → length (delete_where p xs) + count_where p xs ≡ length xs
  unfolding delete_where count_where
  length-delete_where p [] = omega arith
  length-delete_where p (x ∷ xs) = ground (arith, length-delete_where p xs)

  pub find-holds : (p : A → Bool) (xs : List A) (a : A) → find p xs ≡ some a → p a ≡ true
  unfolding find
  find-holds p [] a h = ground arith
  find-holds p (x ∷ xs) a h = ground (arith, find-holds p xs a)

  pub find-none : (p : A → Bool) (xs : List A) → find p xs ≡ none → All (λ a. p a ≡ false) xs
  unfolding find
  find-none p [] h = tt
  find-none p (x ∷ xs) h = ground (arith, find-none p xs)

  pub find-eq-none : (p : A → Bool) (xs : List A) → All (λ a. p a ≡ false) xs → find p xs ≡ none
  unfolding find
  find-eq-none p [] h = refl
  find-eq-none p (x ∷ xs) h = ground (arith, find-eq-none p xs h.1)

  pub find-delete_where : (p : A → Bool) (xs : List A) → find p (delete_where p xs) ≡ none
  unfolding find delete_where
  find-delete_where p [] = refl
  find-delete_where p (x ∷ xs) = ground (arith, find-delete_where p xs)

  -- Deleting other rows does not change which row is found.
  pub find-delete_where_kept :
      (p q : A → Bool) (xs : List A) (a : A)
      → find p xs ≡ some a
      → q a ≡ false
      → find p (delete_where q xs) ≡ some a
  unfolding find delete_where
  find-delete_where_kept p q [] a e kept = cc
  find-delete_where_kept p q (x ∷ xs) a e kept = ground (arith, find-delete_where_kept p q xs a)

  pub find-delete_where_other :
      (p q : A → Bool) (xs : List A)
      → ((a : A) → p a ≡ true → q a ≡ false)
      → find p (delete_where q xs) ≡ find p xs
  unfolding find delete_where
  find-delete_where_other p q [] other = refl
  find-delete_where_other p q (x ∷ xs) other =
      ground (arith, other x, find-delete_where_other p q xs other)

  -- An update that selects no row changes nothing.
  pub update_where-none :
      (p : A → Bool) (f : A → A) (xs : List A)
      → All (λ a. p a ≡ false) xs
      → update_where p f xs ≡ xs
  unfolding update_where
  update_where-none p f [] h = refl
  update_where-none p f (x ∷ xs) h = ground (arith, update_where-none p f xs h.1)

  pub count_where-none :
      (p : A → Bool) (xs : List A) → All (λ a. p a ≡ false) xs → count_where p xs ≡ 0
  unfolding count_where
  count_where-none p [] h = refl
  count_where-none p (x ∷ xs) h = ground (arith, count_where-none p xs h.1)

  pub find-append :
      (p : A → Bool) (xs : List A) (a : A)
      → find p (xs ++ a ∷ [])
        ≡ (elim (find p xs) [ some b ↦ some b | none ↦ if p a then some a else none ])
  unfolding find
  find-append p [] a = refl
  find-append p (x ∷ xs) a = ground (arith, find-append p xs a)

  -- An update that its own test does not notice is found where the row was.
  pub find-update_where :
      (p : A → Bool) (f : A → A) (xs : List A)
      → ((a : A) → p (f a) ≡ p a)
      → find p (update_where p f xs) ≡ (elim (find p xs) [ none ↦ none | some b ↦ some (f b) ])
  unfolding find update_where
  find-update_where p f [] same = refl
  find-update_where p f (x ∷ xs) same = ground (arith, same x, find-update_where p f xs same)

  -- An update of other rows is not noticed.
  pub find-update_where_other :
      (p q : A → Bool) (f : A → A) (xs : List A)
      → ((a : A) → p a ≡ true → (q a ≡ false) × (q (f a) ≡ false))
      → find q (update_where p f xs) ≡ find q xs
  unfolding find update_where
  find-update_where_other p q f [] other = refl
  find-update_where_other p q f (x ∷ xs) other =
      ground (arith, other x, find-update_where_other p q f xs other)

  pub length-update_where :
      (p : A → Bool) (f : A → A) (xs : List A) → length (update_where p f xs) ≡ length xs
  unfolding update_where
  length-update_where p f [] = refl
  length-update_where p f (x ∷ xs) = ap suc (length-update_where p f xs)

module _ {ℓ κ} {A : Type ℓ} (P : A → Type κ) (p : A → Bool) where
  pub All-find : (xs : List A) (a : A) → All P xs → find p xs ≡ some a → P a
  unfolding find
  All-find [] a h e = cc
  All-find (x ∷ xs) a h e = elim (Bool-cases (p x)) [
    | inl hit ↦ subst P (ground arith) h.0
    | inr miss ↦ All-find xs a h.1 (ground arith)
  ]

  pub All-select : (xs : List A) → All P xs → All P (select p xs)
  unfolding select
  All-select [] h = tt
  All-select (x ∷ xs) h = elim (Bool-cases (p x)) [
    | inl hit ↦ rw hit (h.0, All-select xs h.1)
    | inr miss ↦ rw miss (All-select xs h.1)
  ]

  pub All-delete_where : (xs : List A) → All P xs → All P (delete_where p xs)
  unfolding delete_where
  All-delete_where [] h = tt
  All-delete_where (x ∷ xs) h = elim (Bool-cases (p x)) [
    | inl hit ↦ rw hit (All-delete_where xs h.1)
    | inr miss ↦ rw miss (h.0, All-delete_where xs h.1)
  ]

  -- It is enough that the update keeps the property on the rows that it selects.
  pub All-update_where :
      (f : A → A) (xs : List A)
      → ((a : A) → p a ≡ true → P a → P (f a))
      → All P xs
      → All P (update_where p f xs)
  unfolding update_where
  All-update_where f [] keep h = tt
  All-update_where f (x ∷ xs) keep h = elim (Bool-cases (p x)) [
    | inl hit ↦ rw hit (keep x hit h.0, All-update_where f xs keep h.1)
    | inr miss ↦ rw miss (h.0, All-update_where f xs keep h.1)
  ]

module _ {ℓ} {A : Type ℓ} (p : A → Bool) where
  -- What `select` returns satisfies the test.
  pub select-holds : (xs : List A) → All (λ a. p a ≡ true) (select p xs)
  unfolding select
  select-holds [] = tt
  select-holds (x ∷ xs) = elim (Bool-cases (p x)) [
    | inl hit ↦ rw hit (hit, select-holds xs)
    | inr miss ↦ rw miss (select-holds xs)
  ]

  pub delete_where-fails : (xs : List A) → All (λ a. p a ≡ false) (delete_where p xs)
  unfolding delete_where
  delete_where-fails [] = tt
  delete_where-fails (x ∷ xs) = elim (Bool-cases (p x)) [
    | inl hit ↦ rw hit (delete_where-fails xs)
    | inr miss ↦ rw miss (miss, delete_where-fails xs)
  ]
