-- ===== src/Base/Keys.antt =====
-- Membership in a table, and tables whose rows have distinct primary keys.
use Prim.Native.Nat.{ℕ, ◌<◌}
use mathlib.Core.Path.{◌≡◌, refl, subst, sym, ap, ◌∙◌}
use mathlib.Core.Logic.{inl, inr, ◌≢◌}
use mathlib.Core.Bool.{false, Bool, true}
use mathlib.Core.Option.{some}
use mathlib.Core.List.{List, [], ◌∷◌, ◌++◌}
use native.Mathlib.Omega.{arith}
use billsons_forms.Base.Tests.{if◌then◌else◌, Bool-cases}
use billsons_forms.Base.Lists.{All, All-map, All-append}
use billsons_forms.Base.Rows.{
  find, select, count_where, count_where-none, update_where, delete_where, All-update_where,
  All-delete_where,
}

-- The row is in the table.
pub data In {ℓ} {A : Type ℓ} (a : A) : List A → Type ℓ where
  here : {x : A} {xs : List A} → x ≡ a → In a (x ∷ xs)
  there : {x : A} {xs : List A} → In a xs → In a (x ∷ xs)

module _ {ℓ} {A : Type ℓ} where
  pub All-In {κ} : (P : A → Type κ) (xs : List A) {a : A} → All P xs → In a xs → P a
  All-In P [] h i = elim i [ ]
  All-In P (x ∷ xs) h (here e) = subst P e h.0
  All-In P (x ∷ xs) h (there i) = All-In P xs h.1 i

  -- What is proved of each row from its place.
  pub All-of_In {κ} : (P : A → Type κ) (xs : List A) → ((a : A) → In a xs → P a) → All P xs
  All-of_In P [] f = tt
  All-of_In P (x ∷ xs) f = (f x (here refl), All-of_In P xs (λ a i. f a (there i)))

  pub In-append_left : {a : A} (xs ys : List A) → In a xs → In a (xs ++ ys)
  In-append_left [] ys i = elim i [ ]
  In-append_left (x ∷ xs) ys (here e) = here e
  In-append_left (x ∷ xs) ys (there i) = there (In-append_left xs ys i)

  pub In-append_right : {a : A} (xs ys : List A) → In a ys → In a (xs ++ ys)
  In-append_right [] ys i = i
  In-append_right (x ∷ xs) ys i = there (In-append_right xs ys i)

  In-cons : {a : A} (x : A) (xs ys : List A) → (In a xs → In a ys) → In a (x ∷ xs) → In a (x ∷ ys)
  In-cons x xs ys f (here e) = here e
  In-cons x xs ys f (there i) = there (f i)

module _ {ℓ} {A : Type ℓ} (p : A → Bool) where
  pub In-find : (xs : List A) {a : A} → find p xs ≡ some a → In a xs
  unfolding find
  In-find [] e = absurd (cc)
  In-find (x ∷ xs) {a} e = elim (Bool-cases (p x)) [
    | inl hit ↦ here (ground arith)
    | inr miss ↦ there (In-find xs (ground arith))
  ]

  pub In-select : (xs : List A) {a : A} → In a (select p xs) → In a xs
  unfolding select
  In-select [] i = i
  In-select (x ∷ xs) {a} i = elim (Bool-cases (p x)) [
    | inl hit ↦ In-cons x (select p xs) xs (λ j. In-select xs j) (subst (In a) (ground arith) i)
    | inr miss ↦ there (In-select xs (subst (In a) (ground arith) i))
  ]

  pub In-select_of : (xs : List A) {a : A} → In a xs → p a ≡ true → In a (select p xs)
  unfolding select
  In-select_of [] i hit = elim i [ ]
  In-select_of (x ∷ xs) {a} (here e) hit =
      let hit_x : p x ≡ true = subst (λ y. p y ≡ true) (sym e) hit in rw hit_x (here e)
  In-select_of (x ∷ xs) (there i) hit = elim (Bool-cases (p x)) [
    | inl hit_x ↦ rw hit_x (there (In-select_of xs i hit))
    | inr miss ↦ rw miss (In-select_of xs i hit)
  ]

  -- A row that an update selects is there as it was updated, and any other as it was.
  pub In-update_where :
      (f : A → A) (xs : List A) {a : A} → In a xs → p a ≡ true → In (f a) (update_where p f xs)
  unfolding update_where
  In-update_where f [] i hit = elim i [ ]
  In-update_where f (x ∷ xs) {a} (here e) hit =
      let hit_x : p x ≡ true = subst (λ y. p y ≡ true) (sym e) hit in rw hit_x (here (ap f e))
  In-update_where f (x ∷ xs) (there i) hit = there (In-update_where f xs i hit)

  pub In-update_where_other :
      (f : A → A) (xs : List A) {a : A} → In a xs → p a ≡ false → In a (update_where p f xs)
  unfolding update_where
  In-update_where_other f [] i miss = elim i [ ]
  In-update_where_other f (x ∷ xs) {a} (here e) miss =
      let miss_x : p x ≡ false = subst (λ y. p y ≡ false) (sym e) miss in rw miss_x (here e)
  In-update_where_other f (x ∷ xs) (there i) miss = there (In-update_where_other f xs i miss)

  pub In-delete_where : (xs : List A) {a : A} → In a xs → p a ≡ false → In a (delete_where p xs)
  unfolding delete_where
  In-delete_where [] i miss = elim i [ ]
  In-delete_where (x ∷ xs) {a} (here e) miss =
      let miss_x : p x ≡ false = subst (λ y. p y ≡ false) (sym e) miss in rw miss_x (here e)
  In-delete_where (x ∷ xs) (there i) miss = elim (Bool-cases (p x)) [
    | inl hit ↦ rw hit (In-delete_where xs i miss)
    | inr kept ↦ rw kept (there (In-delete_where xs i miss))
  ]

  pub In-of_delete_where : (xs : List A) {a : A} → In a (delete_where p xs) → In a xs
  unfolding delete_where
  In-of_delete_where [] i = i
  In-of_delete_where (x ∷ xs) {a} i = elim (Bool-cases (p x)) [
    | inl hit ↦ there (In-of_delete_where xs (subst (In a) (ground arith) i))
    | inr kept ↦
        In-cons x (delete_where p xs) xs (λ j. In-of_delete_where xs j)
          (subst (In a) (ground arith) i)
  ]

-- No two rows share a key.
module _ {ℓ} {A : Type ℓ} (key : A → ℕ) where
  abbrev pub IsKeyed : List A → Type ℓ
  IsKeyed [] = Unit
  IsKeyed (x ∷ xs) = All (λ a. key a ≢ key x) xs × IsKeyed xs

  pub In-unique : (xs : List A) {a b : A} → IsKeyed xs → In a xs → In b xs → key a ≡ key b → a ≡ b
  In-unique [] k i j g = elim i [ ]
  In-unique (x ∷ xs) k (here e) (here f) g = sym e ∙ f
  In-unique (x ∷ xs) k (here e) (there j) g =
      absurd (All-In (λ a. key a ≢ key x) xs k.0 j (sym g ∙ ap key (sym e)))
  In-unique (x ∷ xs) k (there i) (here f) g =
      absurd (All-In (λ a. key a ≢ key x) xs k.0 i (g ∙ ap key (sym f)))
  In-unique (x ∷ xs) k (there i) (there j) g = In-unique xs k.1 i j g

  All-update_where_key :
      (p : A → Bool) (f : A → A) (n : ℕ) (xs : List A)
      → ((a : A) → p a ≡ true → key (f a) ≡ key a)
      → All (λ a. key a ≢ n) xs
      → All (λ a. key a ≢ n) (update_where p f xs)
  All-update_where_key p f n xs keep h =
      All-update_where (λ a. key a ≢ n) p f xs (λ a hit ne e. ne (sym (keep a hit) ∙ e)) h

  -- An update that keeps the keys keeps them distinct.
  pub update_where-IsKeyed :
      (p : A → Bool) (f : A → A) (xs : List A)
      → ((a : A) → p a ≡ true → key (f a) ≡ key a)
      → IsKeyed xs
      → IsKeyed (update_where p f xs)
  unfolding update_where
  update_where-IsKeyed p f [] keep k = tt
  update_where-IsKeyed p f (x ∷ xs) keep k = (
    subst (λ n. All (λ a. key a ≢ n) (update_where p f xs)) (kept x)
        (All-update_where_key p f (key x) xs keep k.0),
    update_where-IsKeyed p f xs keep k.1,
  )
    where
      kept : (a : A) → key a ≡ key (if p a then f a else a)
      kept a = elim (Bool-cases (p a)) [
        | inl hit ↦ rw hit (sym (keep a hit))
        | inr miss ↦ rw miss refl
      ]

  pub delete_where-IsKeyed : (p : A → Bool) (xs : List A) → IsKeyed xs → IsKeyed (delete_where p xs)
  unfolding delete_where
  delete_where-IsKeyed p [] k = tt
  delete_where-IsKeyed p (x ∷ xs) k = elim (Bool-cases (p x)) [
    | inl hit ↦ rw hit (delete_where-IsKeyed p xs k.1)
    | inr miss ↦ rw miss (All-delete_where _ p xs k.0, delete_where-IsKeyed p xs k.1)
  ]

  -- A row with a key above all others goes at the end.
  pub append-IsKeyed :
      (xs : List A) (a : A) → All (λ x. key x < key a) xs → IsKeyed xs → IsKeyed (xs ++ a ∷ [])
  append-IsKeyed [] a below k = (tt, tt)
  append-IsKeyed (x ∷ xs) a below k =
      (All-append _ xs (a ∷ []) k.0 (λ e. omega arith, tt), append-IsKeyed xs a below.1 k.1)

  -- A test that only one key can pass selects one row at most.
  pub count_where-keyed :
      (p : A → Bool) (n : ℕ) (xs : List A) (a : A)
      → IsKeyed xs
      → ((x : A) → p x ≡ true → key x ≡ n)
      → In a xs
      → p a ≡ true
      → count_where p xs ≡ 1
  unfolding count_where
  count_where-keyed p n [] a k only i hit = elim i [ ]
  count_where-keyed p n (x ∷ xs) a k only (here e) hit =
      let hit_x : p x ≡ true = subst (λ y. p y ≡ true) (sym e) hit in
      rw hit_x (omega (arith, count_where-none p xs (All-map _ _ xs (others hit_x) k.0)))
    where
      others : p x ≡ true → (y : A) → key y ≢ key x → p y ≡ false
      others hit_x y ne = elim (Bool-cases (p y)) [
        | inl hit_y ↦ absurd (ne (only y hit_y ∙ sym (only x hit_x)))
        | inr miss ↦ miss
      ]
  count_where-keyed p n (x ∷ xs) a k only (there i) hit = elim (Bool-cases (p x)) [
    | inl hit_x ↦ absurd (All-In (λ y. key y ≢ key x) xs k.0 i (only a hit ∙ sym (only x hit_x)))
    | inr miss ↦ rw miss (omega (arith, count_where-keyed p n xs a k.1 only i hit))
  ]

  -- A test that only one key can pass finds the row with that key.
  pub find-keyed :
      (p : A → Bool) (xs : List A) (a : A)
      → IsKeyed xs
      → ((x : A) → p x ≡ true → key x ≡ key a)
      → In a xs
      → p a ≡ true
      → find p xs ≡ some a
  unfolding find
  find-keyed p [] a k only i hit = elim i [ ]
  find-keyed p (x ∷ xs) a k only (here e) hit =
      let hit_x : p x ≡ true = subst (λ y. p y ≡ true) (sym e) hit in rw hit_x (ap some e)
  find-keyed p (x ∷ xs) a k only (there i) hit = elim (Bool-cases (p x)) [
    | inl hit_x ↦ absurd (All-In (λ y. key y ≢ key x) xs k.0 i (sym (only x hit_x)))
    | inr miss ↦ rw miss (find-keyed p xs a k.1 only i hit)
  ]
