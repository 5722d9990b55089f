-- ===== src/Scripts.antt =====
-- app/scripts/create_admin.py: the first administrator, made on the command line. The answers to the
-- prompts are arguments. Names that are too long for their columns are left out.
pub mod Laws
mod Examples
use billsons_forms.Base.{
  Text, false, find, if◌then◌else◌, is_empty, is_some, lit, not, true, ℕ, ◌++◌, ◌||◌,
}
use billsons_forms.Models.{Database, User, insert}
use billsons_forms.Strings.{join, strip, truthy}
use billsons_forms.Network.{Result, err, ok}
use billsons_forms.Platform.{Platform}
use billsons_forms.Auth.{hash_password, password_errors}
use billsons_forms.Users.{is_named}

module _ (p : Platform) where
  abbrev pub new_admin : Text → Text → Text → Text → ℕ → User
  new_admin username display_name password salt id = record {
    id = id;
    username = username;
    display_name = display_name;
    password_hash = hash_password p salt password;
    role = lit "admin";
    is_active = true;
    is_deleted = false;
  }

  abbrev pub add_admin : Text → Text → Text → Text → Database → Result Text × Database
  add_admin username display_name password salt db =
      if not (truthy username) || not (truthy display_name) || not (truthy password)
      then (err (lit "Username, display name and password are required."), db)
      else if not (is_empty (password_errors p password username))
      then (err (join (lit " ") (password_errors p password username)), db)
      else if is_some (find (is_named username) db.users.rows)
      then (err (lit "User '" ++ username ++ lit "' already exists."), db)
      else (
        ok (lit "Admin user '" ++ username ++ lit "' created."),
        record db { users = insert (new_admin username display_name password salt) db.users },
      )

  -- `main`: what it prints or the message that it exits with.
  unfoldable pub create_admin : Text → Text → Text → Text → Database → Result Text × Database
  create_admin username display_name password salt db =
      add_admin (strip p.unicode username) (strip p.unicode display_name) (strip p.unicode password)
        salt db
