-- ===== src/Scripts/Laws.antt =====
-- The administrator that the script makes.
use billsons_forms.Base.{
  Bool-cases, In, In-append_right, Option-cases, Text, [], find, here, inl, inr, is_empty, lit,
  none, not, refl, true, ◌||◌, ◌∷◌, ◌≡◌, ◌⊎◌,
}
use billsons_forms.Models.{Database, User}
use billsons_forms.Models.Names.{insert-IsNamed}
use billsons_forms.Strings.{strip, truthy}
use billsons_forms.Network.{Result, err}
use billsons_forms.Platform.{Platform}
use billsons_forms.Auth.{password_errors}
use billsons_forms.Users.{is_named}
use billsons_forms.Users.Laws.{IsUserTable, new_name}
use billsons_forms.Scripts.{add_admin, create_admin, new_admin}

module _ (p : Platform) (username display_name password salt : Text) (db : Database) where
  abbrev Outcome : Text → Result Text × Database → Type 0
  Outcome name result =
      IsUserTable result.1.users
      × (((message : Text) × (result.0 ≡ err message) × (result.1 ≡ db))
          ⊎ ((u : User) × In u result.1.users.rows
              × (u.role ≡ lit "admin")
              × (u.is_active ≡ true)
              × (u.username ≡ name)
              × (find (is_named u.username) db.users.rows ≡ none)))

  add_admin-Outcome :
      (name shown secret : Text)
      → IsUserTable db.users
      → Outcome name (add_admin p name shown secret salt db)
  add_admin-Outcome name shown secret h =
      elim (Bool-cases (not (truthy name) || not (truthy shown) || not (truthy secret))) [
        | inl blank ↦ rw blank (h, inl (_, refl, refl))
        | inr filled ↦ rw filled (elim (Bool-cases (is_empty (password_errors p secret name))) [
          | inr weak ↦ rw weak (h, inl (_, refl, refl))
          | inl strong ↦ rw strong (elim (Option-cases (find (is_named name) db.users.rows)) [
            | inr (u, known) ↦ rw known (h, inl (_, refl, refl))
            | inl absent ↦
                let u = new_admin p name shown secret salt db.users.next_id in
                rw absent (
                  insert-IsNamed _ _ db.users (new_admin p name shown secret salt) (λ n. refl)
                      (λ q i. new_name db.users u q absent i) h,
                  inr (
                    u,
                    In-append_right db.users.rows (u ∷ []) (here refl),
                    refl,
                    refl,
                    refl,
                    absent,
                  ),
                )
          ])
        ])
      ]

  -- The script either says why not and leaves the database, or adds one active administrator; user
  -- names stay unique.
  pub create_admin-IsUserTable :
      IsUserTable db.users
      → let (answer, db') = create_admin p username display_name password salt db in
        IsUserTable db'.users
        × (((message : Text) × (answer ≡ err message) × (db' ≡ db))
            ⊎ ((u : User) × In u db'.users.rows
                × (u.role ≡ lit "admin")
                × (u.is_active ≡ true)
                × (u.username ≡ strip p.unicode username)
                × (find (is_named u.username) db.users.rows ≡ none)))
  unfolding create_admin
  create_admin-IsUserTable h = add_admin-Outcome _ _ _ h
