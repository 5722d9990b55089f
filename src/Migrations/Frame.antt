-- ===== src/Migrations/Frame.antt =====
-- The tables of another program in the same database do not matter to the statements, as long as no
-- name is taken and no foreign key of theirs points here.
use billsons_forms.Base.{
  Bool, Bool-cases, List, Option, Option-cases, String, [], all, any, ap, arith, inl, inr, none,
  refl, some, true, ◌&&◌, ◌++◌, ◌∷◌, ◌≡◌,
}
use billsons_forms.Migrations.{
  Catalog, Operation, TableSchema, add_column, alter_column, create_foreign_key, create_index,
  create_table, drop_column, drop_constraint, drop_index, drop_table,
}
use billsons_forms.Migrations.Statements.{
  alter, asks_sequence, change, clear, is_table, needs, onto, perform, perform_all, provided,
  remove, under,
}

any-append {ℓ} :
    {A : Type ℓ} (p : A → Bool) (xs ys : List A) → any p xs ≡ true → any p (xs ++ ys) ≡ true
any-append p [] ys h = absurd (ground (arith, h))
any-append p (x ∷ xs) ys h = ground (arith, h, any-append p xs ys)

all-append {ℓ} :
    {A : Type ℓ} (p : A → Bool) (xs ys : List A)
    → all p xs ≡ true
    → all p ys ≡ true
    → all p (xs ++ ys) ≡ true
all-append p [] ys hx hy = hy
all-append p (x ∷ xs) ys hx hy = ground (arith, hx, hy, all-append p xs ys)

-- What the tables of another program allow.
abbrev pub is_free : List Operation → Catalog → Bool
is_free [] s = true
is_free (operation ∷ operations) s = all (clear operation) s && is_free operations s

module _ (s : Catalog) where
  -- A result with the other tables after it.
  abbrev framed : Option Catalog → Option Catalog
  framed none = none
  framed (some c) = some (c ++ s)

  onto-frame :
      (own own' : Catalog) (o : Option TableSchema)
      → onto own o ≡ some own'
      → onto (own ++ s) o ≡ some (own' ++ s)
  onto-frame own own' none h = absurd (ground (arith, h))
  onto-frame own own' (some t) h = ap framed h

  under-frame :
      (t : TableSchema) (own' : Catalog) (o o' : Option Catalog)
      → ((c : Catalog) → o ≡ some c → o' ≡ some (c ++ s))
      → under t o ≡ some own'
      → under t o' ≡ some (own' ++ s)
  under-frame t own' none o' f h = absurd (ground (arith, h))
  under-frame t own' (some c) o' f h = rw (f c refl) (ap framed h)

  alter-frame :
      (name : String) (f : TableSchema → Option TableSchema) (own own' : Catalog)
      → alter name f own ≡ some own'
      → alter name f (own ++ s) ≡ some (own' ++ s)
  unfolding alter
  alter-frame name f [] own' h = absurd (ground (arith, h))
  alter-frame name f (t ∷ own) own' h = elim (Bool-cases (is_table name t)) [
    | inl hit ↦ rw hit (onto-frame own own' (f t) (rw hit at h))
    | inr miss ↦
        rw miss (
          under-frame t own' (alter name f own) _ (λ c e. alter-frame name f own c e)
            (rw miss at h))
  ]

  remove-frame :
      (name : String) (own own' : Catalog)
      → remove name own ≡ some own'
      → remove name (own ++ s) ≡ some (own' ++ s)
  unfolding remove
  remove-frame name [] own' h = absurd (ground (arith, h))
  remove-frame name (t ∷ own) own' h = elim (Bool-cases (is_table name t)) [
    | inl hit ↦ rw hit (ap framed (rw hit at h))
    | inr miss ↦
        rw miss
          (under-frame t own' (remove name own) _ (λ c e. remove-frame name own c e) (rw miss at h))
  ]

  change-frame :
      (operation : Operation) (own own' : Catalog)
      → change operation own ≡ some own'
      → change operation (own ++ s) ≡ some (own' ++ s)
  change-frame (create_table name columns constraints) own own' h = ap framed h
  change-frame (create_index name table column unique) own own' h = alter-frame table _ own own' h
  change-frame (drop_table name) own own' h = remove-frame name own own' h
  change-frame (drop_index name table) own own' h = alter-frame table _ own own' h
  change-frame (add_column table c) own own' h = alter-frame table _ own own' h
  change-frame (drop_column table column) own own' h = alter-frame table _ own own' h
  change-frame (drop_constraint name table) own own' h = alter-frame table _ own own' h
  change-frame (alter_column table column nullable) own own' h = alter-frame table _ own own' h
  change-frame (create_foreign_key name table target column target_column set_null) own own' h =
      alter-frame table _ own own' h

  provided-frame :
      (names : List String) (own : Catalog)
      → provided names own ≡ true
      → provided names (own ++ s) ≡ true
  provided-frame [] own h = refl
  provided-frame (name ∷ names) own h =
      ground (arith, h, any-append (is_table name) own s, provided-frame names own)

  perform-frame :
      (operation : Operation) (own own' : Catalog)
      → all (clear operation) s ≡ true
      → perform operation own ≡ some own'
      → perform operation (own ++ s) ≡ some (own' ++ s)
  unfolding perform
  perform-frame operation own own' free h = elim (Bool-cases (asks_sequence operation)) [
    | inl asks ↦ absurd (ground (arith, h, asks))
    | inr plain ↦ elim (Bool-cases (all (clear operation) own && provided (needs operation) own)) [
      | inr refused ↦ absurd (ground (arith, h, refused))
      | inl allowed ↦
          let apart = all-append (clear operation) own s (ground (arith, allowed)) free in
          let there = provided-frame (needs operation) own (ground (arith, allowed)) in
          rw (plain, apart, there) (change-frame operation own own' (rw allowed at (rw plain at h)))
    ]
  ]

  pub perform_all-frame :
      (operations : List Operation) (own own' : Catalog)
      → is_free operations s ≡ true
      → perform_all operations own ≡ some own'
      → perform_all operations (own ++ s) ≡ some (own' ++ s)
  unfolding perform_all
  perform_all-frame [] own own' free h = ap framed h
  perform_all-frame (operation ∷ operations) own own' free h =
      elim (Option-cases (perform operation own)) [
        | inl refused ↦ absurd (ground (arith, h, refused))
        | inr (next, done) ↦
            rw (perform-frame operation own next (ground (arith, free)) done)
              (perform_all-frame operations next own' (ground (arith, free)) (rw done at h))
      ]
