-- ===== src/Queue/Selection.antt =====
-- `ORDER BY available_at, id LIMIT 1`: the row that is found is in the table and none precedes it.
use billsons_forms.Base.{
  ◌≡◌, refl, subst, ◌∙◌, ap, inl, inr, true, false, none, some, List, [], ◌∷◌, arith, All, All-map,
  Option-cases, Bool-cases,
}
use billsons_forms.Models.{EmailDeliveryJob}
use billsons_forms.Queue.{precedes, first_in_order}

-- No row of the list comes before this one.
abbrev pub IsFirst : List EmailDeliveryJob → EmailDeliveryJob → Type 0
IsFirst rows j = All (λ k. precedes k j ≡ false) rows

precedes_irrefl : (j : EmailDeliveryJob) → precedes j j ≡ false
unfolding precedes
precedes_irrefl j = ground arith

precedes_cotrans :
    (i j k : EmailDeliveryJob) → precedes k i ≡ false → precedes i j ≡ false → precedes k j ≡ false
unfolding precedes
precedes_cotrans i j k p q = ground arith

precedes_asymm : (j k : EmailDeliveryJob) → precedes k j ≡ true → precedes j k ≡ false
unfolding precedes
precedes_asymm j k p = ground arith

pub first_in_order-none : (rows : List EmailDeliveryJob) → first_in_order rows ≡ none → rows ≡ []
unfolding first_in_order
first_in_order-none [] e = refl
first_in_order-none (j ∷ js) e = ground arith

-- What the recursion on the rest of the table leaves to choose from.
data Choice (k : EmailDeliveryJob) (ks : List EmailDeliveryJob) (j : EmailDeliveryJob)
    : Type 0 where
  alone : ks ≡ [] → k ≡ j → Choice k ks j
  later : first_in_order ks ≡ some j → precedes j k ≡ true → Choice k ks j
  head :
      (m : EmailDeliveryJob)
      → first_in_order ks ≡ some m
      → precedes m k ≡ false
      → k ≡ j
      → Choice k ks j

choice :
    (k : EmailDeliveryJob) (ks : List EmailDeliveryJob) (j : EmailDeliveryJob)
    → first_in_order (k ∷ ks) ≡ some j
    → Choice k ks j
unfolding first_in_order
choice k ks j e = elim (Option-cases (first_in_order ks)) [
  | inl nothing ↦ alone (first_in_order-none ks nothing) (ground arith)
  | inr (m, found) ↦ elim (Bool-cases (precedes m k)) [
    | inl before ↦
        let same : m ≡ j = ground arith in
        later (found ∙ ap some same) (subst (λ x. precedes x k ≡ true) same before)
    | inr after ↦ head m found after (ground arith)
  ]
]

pub first_in_order-IsFirst :
    (rows : List EmailDeliveryJob) (j : EmailDeliveryJob)
    → first_in_order rows ≡ some j
    → IsFirst rows j
first_in_order-IsFirst [] j e = absurd (unfold first_in_order in cc)
first_in_order-IsFirst (k ∷ ks) j e = elim (choice k ks j e) [
  | alone nil same ↦ rw (nil, ← same) (precedes_irrefl k, tt)
  | later found before ↦ (precedes_asymm k j before, first_in_order-IsFirst ks j found)
  | head m found after same ↦ subst (IsFirst (k ∷ ks)) same (
    precedes_irrefl k,
    All-map _ _ ks (λ i h. precedes_cotrans m k i h after) (first_in_order-IsFirst ks m found),
  )
]

-- The row that is found is one of the table's: what holds of every row holds of it.
pub All-first_in_order {κ} :
    (P : EmailDeliveryJob → Type κ) (rows : List EmailDeliveryJob) (j : EmailDeliveryJob)
    → All P rows
    → first_in_order rows ≡ some j
    → P j
All-first_in_order P [] j h e = absurd (unfold first_in_order in cc)
All-first_in_order P (k ∷ ks) j h e = elim (choice k ks j e) [
  | alone nil same ↦ subst P same h.0
  | later found before ↦ All-first_in_order P ks j h.1 found
  | head m found after same ↦ subst P same h.0
]
