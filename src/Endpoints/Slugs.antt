-- ===== src/Endpoints/Slugs.antt =====
-- Which endpoint a slug leads to, before and after a change of the table.
use billsons_forms.Base.{
  All-In, All-map, All-of_In, Bool-cases, In, In-of_update_where, In-unique, In-update_where, List,
  Option-cases, Text, Updated, [], arith, changed, false, find, find-append, find-eq-none,
  find-none, find_alone, find_past, if◌then◌else◌, inl, inr, left, nat_eq, none, refl, some, subst,
  sym, text_beq, text_beq_iff, text_beq_refl, text_eq, true, update_where, ◌++◌, ◌==◌, ◌∙◌, ◌∷◌,
  ◌≡◌, ◌⊎◌,
}
use billsons_forms.Models.{FormEndpoint, Table, with_rows}
use billsons_forms.Models.Names.{IsNamed}
use billsons_forms.Forms.{live_slug}
use billsons_forms.Endpoints.{disabled, has_id, has_slug, is_other_slug}

abbrev IsSlugTable : Table FormEndpoint → Type 0
IsSlugTable t = IsNamed (λ (r : FormEndpoint). r.id) (λ (r : FormEndpoint). r.slug) t

module _ (t : Table FormEndpoint) (h : IsSlugTable t) where
  -- A live row is the one that its slug finds.
  pub find_live :
      (r : FormEndpoint)
      → In r t.rows
      → r.is_deleted ≡ false
      → find (live_slug r.slug) t.rows ≡ some r
  find_live r i live =
      find_alone (live_slug r.slug) t.rows r
        (λ x j hit.
          In-unique (λ (e : FormEndpoint). e.id) t.rows h.table.keyed j i
            (h.unique x r j i (ground (arith, hit, text_beq_iff x.slug r.slug))))
        i (ground (arith, live, text_beq_refl r.slug))

  -- A row with the id of another is that row.
  same_row : (x r : FormEndpoint) → In x t.rows → In r t.rows → has_id r.id x ≡ true → x ≡ r
  same_row x r i j hit =
      In-unique (λ (e : FormEndpoint). e.id) t.rows h.table.keyed i j (ground arith)

  -- Where another row has the slug, or none has it any more.
  slug_gone :
      (f : FormEndpoint → FormEndpoint) (r : FormEndpoint) (s : Text)
      → In r t.rows
      → r.slug ≡ s
      → ((x : FormEndpoint) → live_slug s (f x) ≡ false)
      → find (live_slug s) (update_where (has_id r.id) f t.rows) ≡ none
  slug_gone f r s i own cleared =
      find-eq-none _ _ (All-of_In _ _ (λ x j. gone x (In-of_update_where (has_id r.id) f t.rows j)))
    where
      gone : (x : FormEndpoint) → Updated (has_id r.id) f t.rows x → live_slug s x ≡ false
      gone x (changed a j hit e) = subst (λ y. live_slug s y ≡ false) e (cleared a)
      gone x (left j miss) = elim (Bool-cases (live_slug s x)) [
        | inr other ↦ other
        | inl hit ↦
            let same = h.unique x r j i (ground (arith, hit, text_beq_iff x.slug s, own)) in
            absurd (ground (arith, same, miss))
      ]

  slug_kept :
      (f : FormEndpoint → FormEndpoint) (r : FormEndpoint) (s : Text)
      → In r t.rows
      → text_beq r.slug s ≡ false
      → ((x : FormEndpoint) → live_slug s (f x) ≡ false)
      → find (live_slug s) (update_where (has_id r.id) f t.rows) ≡ find (live_slug s) t.rows
  slug_kept f r s i other cleared = find_past (has_id r.id) (live_slug s) f t.rows (λ x j hit.
      (subst (λ y. live_slug s y ≡ false) (sym (same_row x r j i hit)) (ground arith), cleared x))

  pub disabled_view :
      (r : FormEndpoint) (s : Text)
      → In r t.rows
      → find (live_slug s) (update_where (has_id r.id) disabled t.rows)
        ≡ (if r.slug == s then none else find (live_slug s) t.rows)
  disabled_view r s i = elim (Bool-cases (text_beq r.slug s)) [
    | inl own ↦
        rw own (slug_gone disabled r s i ((text_beq_iff r.slug s).0 own) (λ x. ground arith))
    | inr other ↦ rw other (slug_kept disabled r s i other (λ x. ground arith))
  ]

-- A slug that no other row has is free, or the row's own.
pub slug_free :
    (t : Table FormEndpoint) (h : IsSlugTable t) (r : FormEndpoint) (new : Text)
    → In r t.rows
    → find (is_other_slug r.id new) t.rows ≡ none
    → (find (live_slug new) t.rows ≡ none) ⊎ (new ≡ r.slug)
slug_free t h r new i free = elim (Bool-cases (text_beq r.slug new)) [
  | inl own ↦ inr (sym ((text_beq_iff r.slug new).0 own))
  | inr other ↦ inl (
      find-eq-none _ _ (
        All-of_In _ _ (λ x j. elim (Bool-cases (has_id r.id x)) [
          | inl hit ↦
              subst (λ y. live_slug new y ≡ false) (sym (same_row t h x r j i hit))
                (ground (arith, other))
          | inr miss ↦ ground (arith, All-In _ _ (find-none _ t.rows free) j, miss)
        ])))
]

pub renamed_view :
    (t : Table FormEndpoint) (f : FormEndpoint → FormEndpoint) (r : FormEndpoint) (s new : Text)
    → IsSlugTable t
    → In r t.rows
    → ((x : FormEndpoint) → (f x).slug ≡ new)
    → (f r).is_deleted ≡ false
    → IsSlugTable (with_rows t (update_where (has_id r.id) f t.rows))
    → find (live_slug s) (update_where (has_id r.id) f t.rows)
      ≡ (if new == s then some (f r) else if r.slug == s then none else find (live_slug s) t.rows)
renamed_view t f r s new h i named kept h' = elim (Bool-cases (text_beq new s)) [
  | inl own ↦
      let found =
        find_live (with_rows t (update_where (has_id r.id) f t.rows)) h' (f r)
          (In-update_where (has_id r.id) f t.rows i (ground arith)) kept in
      rw own (
        subst (λ n. find (live_slug n) (update_where (has_id r.id) f t.rows) ≡ some (f r))
          (named r ∙ (text_beq_iff new s).0 own) found)
  | inr other ↦ rw other (elim (Bool-cases (text_beq r.slug s)) [
    | inl left_slug ↦
        rw left_slug
          (slug_gone t h f r s i ((text_beq_iff r.slug s).0 left_slug) (λ x. passes x other))
    | inr third ↦ rw third (slug_kept t h f r s i third (λ x. passes x other))
  ])
]
  where
    passes : (x : FormEndpoint) → text_beq new s ≡ false → live_slug s (f x) ≡ false
    passes x other = rw (named x) (ground (arith, other))

pub slug_absent :
    (rows : List FormEndpoint) (slug : Text)
    → find (has_slug slug) rows ≡ none
    → find (live_slug slug) rows ≡ none
slug_absent rows slug absent =
    find-eq-none _ rows
      (All-map _ _ rows (λ x miss. ground (arith, miss)) (find-none _ rows absent))

pub created_view :
    (rows : List FormEndpoint) (e : FormEndpoint) (s : Text)
    → find (has_slug e.slug) rows ≡ none
    → e.is_deleted ≡ false
    → find (live_slug s) (rows ++ e ∷ [])
      ≡ (if e.slug == s then some e else find (live_slug s) rows)
created_view rows e s absent live = elim (Bool-cases (text_beq e.slug s)) [
  | inl own ↦
      let same = (text_beq_iff e.slug s).0 own in
      let free = slug_absent rows s (subst (λ n. find (has_slug n) rows ≡ none) same absent) in
      rw own (find-append (live_slug s) rows e ∙ rw free (ground (arith, own, live)))
  | inr other ↦ rw other (
      find-append (live_slug s) rows e ∙ elim (Option-cases (find (live_slug s) rows)) [
        | inl free ↦ rw free (ground (arith, other))
        | inr (b, taken) ↦ rw taken refl
      ])
]
