-- ===== src/Models/Tables.antt =====
-- What a table with a primary key keeps: distinct keys, all below the next one.
use billsons_forms.Base.{
  ℕ, ◌<◌, ◌≡◌, Bool, true, [], ◌∷◌, arith, All, All-map, All-append, IsKeyed, update_where,
  delete_where, All-update_where, All-delete_where, update_where-IsKeyed, delete_where-IsKeyed,
  append-IsKeyed,
}
use billsons_forms.Models.{Table, insert, with_rows}

module _ {ℓ} {A : Type ℓ} (key : A → ℕ) where
  pub record IsTable (t : Table A) : Type ℓ where
    pub keyed : IsKeyed key t.rows
    pub below : All (λ r. key r < t.next_id) t.rows

  pub insert-IsTable :
      (row : ℕ → A) (t : Table A) → ((n : ℕ) → key (row n) ≡ n) → IsTable t → IsTable (insert row t)
  insert-IsTable row t keyed_by h = record {
    keyed =
        append-IsKeyed key t.rows (row t.next_id)
          (All-map _ _ t.rows (λ r lt. omega (arith, keyed_by t.next_id)) h.below) h.keyed;
    below =
        All-append _ t.rows (row t.next_id ∷ []) (All-map _ _ t.rows (λ r lt. omega arith) h.below)
          (omega (arith, keyed_by t.next_id), tt);
  }

  pub update_where-IsTable :
      (p : A → Bool) (f : A → A) (t : Table A)
      → ((a : A) → p a ≡ true → key (f a) ≡ key a)
      → IsTable t
      → IsTable (with_rows t (update_where p f t.rows))
  update_where-IsTable p f t keep h = record {
    keyed = update_where-IsKeyed key p f t.rows keep h.keyed;
    below = All-update_where _ p f t.rows (λ a hit lt. omega (arith, keep a hit)) h.below;
  }

  pub delete_where-IsTable :
      (p : A → Bool) (t : Table A) → IsTable t → IsTable (with_rows t (delete_where p t.rows))
  delete_where-IsTable p t h = record {
    keyed = delete_where-IsKeyed key p t.rows h.keyed;
    below = All-delete_where _ p t.rows h.below;
  }
