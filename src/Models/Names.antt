-- ===== src/Models/Names.antt =====
-- Tables whose rows have distinct keys, and a name that tells them apart.
use billsons_forms.Base.{
  Bool, In, In-of_append, In-of_update_where, Updated, ap, changed, false, inl, inr, left, refl,
  sym, true, update_where, ℕ, ◌∙◌, ◌≡◌, ◌≢◌, ◌⊎◌, Text,
}
use billsons_forms.Models.{Table, insert, with_rows}
use billsons_forms.Models.Tables.{IsTable, insert-IsTable, update_where-IsTable}

module _ {ℓ} {A : Type ℓ} (key : A → ℕ) (name : A → Text) where
  pub record IsNamed (t : Table A) : Type ℓ where
    pub table : IsTable key t
    pub unique : (r q : A) → In r t.rows → In q t.rows → name r ≡ name q → key r ≡ key q

  pub insert-IsNamed :
      (t : Table A) (row : ℕ → A)
      → ((n : ℕ) → key (row n) ≡ n)
      → ((q : A) → In q t.rows → name (row t.next_id) ≢ name q)
      → IsNamed t
      → IsNamed (insert row t)
  insert-IsNamed t row keyed_by new h = record {
    table = insert-IsTable key row t keyed_by h.table;
    unique = λ r q i j same.
        one r q (In-of_append t.rows (row t.next_id) i) (In-of_append t.rows (row t.next_id) j)
          same;
  }
    where
      one :
          (r q : A)
          → (row t.next_id ≡ r) ⊎ In r t.rows
          → (row t.next_id ≡ q) ⊎ In q t.rows
          → name r ≡ name q
          → key r ≡ key q
      one r q (inl e) (inl f) same = ap key (sym e ∙ f)
      one r q (inl e) (inr j) same = absurd (new q j (ap name e ∙ same))
      one r q (inr i) (inl f) same = absurd (new r i (ap name f ∙ sym same))
      one r q (inr i) (inr j) same = h.unique r q i j same

  -- An update of the rows of one key, to a name that no other row has.
  pub rename-IsNamed :
      (p : A → Bool) (f : A → A) (t : Table A) (new : Text)
      → ((r : A) → p r ≡ true → key (f r) ≡ key r)
      → ((r q : A) → p r ≡ true → p q ≡ true → key r ≡ key q)
      → ((r : A) → In r t.rows → p r ≡ true → name (f r) ≡ new)
      → ((q : A) → In q t.rows → p q ≡ false → name q ≢ new)
      → IsNamed t
      → IsNamed (with_rows t (update_where p f t.rows))
  rename-IsNamed p f t new keep alone named other h = record {
    table = update_where-IsTable key p f t keep h.table;
    unique = λ r q i j same.
        one r q (In-of_update_where p f t.rows i) (In-of_update_where p f t.rows j) same;
  }
    where
      one :
          (r q : A) → Updated p f t.rows r → Updated p f t.rows q → name r ≡ name q → key r ≡ key q
      one r q (changed a i hit e) (changed b j hit' e') same =
          sym (ap key e) ∙ (keep a hit ∙ (alone a b hit hit' ∙ (sym (keep b hit') ∙ ap key e')))
      one r q (changed a i hit e) (left j miss) same =
          absurd (other q j miss (sym same ∙ (ap name (sym e) ∙ named a i hit)))
      one r q (left i miss) (changed b j hit e) same =
          absurd (other r i miss (same ∙ (ap name (sym e) ∙ named b j hit)))
      one r q (left i miss) (left j miss') same = h.unique r q i j same

  -- An update that changes neither keys nor names.
  pub update-IsNamed :
      (p : A → Bool) (f : A → A) (t : Table A)
      → ((r : A) → key (f r) ≡ key r)
      → ((r : A) → name (f r) ≡ name r)
      → IsNamed t
      → IsNamed (with_rows t (update_where p f t.rows))
  update-IsNamed p f t keep named h = record {
    table = update_where-IsTable key p f t (λ r hit. keep r) h.table;
    unique = λ r q i j same.
        let (a, i', key_a, name_a) = origin r (In-of_update_where p f t.rows i) in
        let (b, j', key_b, name_b) = origin q (In-of_update_where p f t.rows j) in
        sym key_a ∙ (h.unique a b i' j' (name_a ∙ (same ∙ sym name_b)) ∙ key_b);
  }
    where
      origin :
          (q : A)
          → Updated p f t.rows q
          → (a : A) × In a t.rows × (key a ≡ key q) × (name a ≡ name q)
      origin q (changed a i hit e) = (a, i, sym (keep a) ∙ ap key e, sym (named a) ∙ ap name e)
      origin q (left i miss) = (q, i, refl, refl)
