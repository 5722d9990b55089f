-- ===== src/Users.antt =====
-- app/web/admin_users.py: the administration of users. What the pages show besides the error is left
-- out, and `salt` is what argon2 draws for a new hash.
pub mod Changes
pub mod Laws
pub mod Access
mod Examples
use billsons_forms.Base.{
  Bool, List, Text, [], contains, false, find, if◌then◌else◌, inl, inr, is_empty, is_some, lit,
  nat_beq, nat_eq, none, not, some, text_beq, text_eq, update_where, ℕ, ◌&&◌, ◌++◌, ◌==◌, ◌||◌, ◌∷◌,
  ◌⊎◌,
}
use billsons_forms.Models.{Database, User, fits, insert, with_rows}
use billsons_forms.Strings.{join, strip, truthy}
use billsons_forms.Http.{Request, Response, page, raised, redirect}
use billsons_forms.Sessions.{delete_user_sessions}
use billsons_forms.Platform.{Platform}
use billsons_forms.Auth.{
  create_audit_log, get_current_user, hash_password, password_errors, require_admin, require_csrf,
  require_user,
}

-- The fields of the two forms, `password` empty where it is not sent.
pub record UserForm : Type 0 where
  pub username : Text
  pub display_name : Text
  pub password : Text
  pub role : Text
  pub is_active : Bool

-- The rows that are not deleted, which the handlers look an id up in.
abbrev pub is_live : ℕ → User → Bool
is_live user_id r = r.id == user_id && not r.is_deleted

abbrev pub is_named : Text → User → Bool
is_named username r = r.username == username

-- A row of another id with the name.
abbrev pub is_other_named : ℕ → Text → User → Bool
is_other_named user_id username r = r.username == username && not (r.id == user_id)

abbrev pub has_user_id : ℕ → User → Bool
has_user_id user_id r = r.id == user_id

abbrev pub valid_role : Text → Bool
valid_role role = contains role (lit "admin" ∷ lit "user" ∷ [])

-- The routes of the router that change state.
pub data UserPost : Type 0 where
  post_new : UserForm → UserPost
  post_edit : ℕ → UserForm → UserPost
  post_deactivate : ℕ → UserPost

module _ (p : Platform) where
  abbrev pub new_user : UserForm → Text → ℕ → User
  new_user form salt id = record {
    id = id;
    username = form.username;
    display_name = form.display_name;
    password_hash = hash_password p salt form.password;
    role = form.role;
    is_active = form.is_active;
    is_deleted = false;
  }

  -- The form with its texts stripped, as both handlers do first.
  abbrev pub clean : UserForm → UserForm
  clean form = record form {
    username = strip p.unicode form.username;
    display_name = strip p.unicode form.display_name;
    role = p.unicode.lower (strip p.unicode form.role);
  }

  -- Whether the columns of a user take the names.
  abbrev pub fits_user : UserForm → Bool
  fits_user form = fits 100 (some form.username) && fits 255 (some form.display_name)

  abbrev create_error : Text → Database → Response × Database
  create_error error db = (page (lit "admin/user_create.html") 400 (some error), db)

  abbrev pub created : UserForm → Text → Request → User → ℕ → Database → Database
  created form salt request current_user now db =
      let db' = record db { users = insert (new_user form salt) db.users } in
      create_audit_log p db' (lit "User Created") (some current_user) none request
        (some (lit "Created user: " ++ form.username ++ lit " (" ++ form.role ++ lit ")")) now

  -- `user_create_submit` after the guard, on the cleaned form.
  unfoldable pub create_user : UserForm → Text → Request → User → ℕ → Database → Response × Database
  create_user form salt request current_user now db =
      if not (valid_role form.role)
      then create_error (lit "Role must be admin or user.") db
      else if not (truthy form.username)
          || not (truthy form.display_name)
          || not (truthy form.password)
      then create_error (lit "Username, display name and password are required.") db
      else if not (is_empty (password_errors p form.password form.username))
      then create_error (join (lit " ") (password_errors p form.password form.username)) db
      else if is_some (find (is_named form.username) db.users.rows)
      then create_error (lit "A user with that username already exists.") db
      else if not (fits_user form)
      then (raised, db)
      else (redirect (lit "/admin/users"), created form salt request current_user now db)

  unfoldable pub user_create_submit :
      UserForm → Text → Request → Response ⊎ User → ℕ → Database → Response × Database
  user_create_submit form salt request (inl response) now db = (response, db)
  user_create_submit form salt request (inr current_user) now db =
      create_user (clean form) salt request current_user now db

  abbrev edit_error : Text → Database → Response × Database
  edit_error error db = (page (lit "admin/user_edit.html") 400 (some error), db)

  abbrev pub password_changed : UserForm → Bool
  password_changed form = truthy (strip p.unicode form.password)

  abbrev pub apply_form : UserForm → Text → User → User
  apply_form form salt r = record r {
    username = form.username;
    display_name = form.display_name;
    role = form.role;
    is_active = form.is_active;
    password_hash =
        if password_changed form
        then hash_password p salt (strip p.unicode form.password)
        else r.password_hash;
  }

  -- The sessions go where the password changed or an active user becomes inactive.
  abbrev pub ends_sessions : UserForm → User → Bool
  ends_sessions form r = password_changed form || r.is_active && not form.is_active

  abbrev pub edited : UserForm → Text → Request → User → User → ℕ → Database → Database
  edited form salt request current_user r now db =
      let db' = record db {
        users =
            with_rows db.users
              (update_where (has_user_id r.id) (apply_form form salt) db.users.rows);
      } in
      let db'' = if ends_sessions form r then delete_user_sessions db' r.id else db' in
      create_audit_log p db'' (lit "User Updated") (some current_user) none request
        (some (lit "Updated user: " ++ r.username ++ lit " -> " ++ form.username)) now

  abbrev pub new_password_errors : UserForm → List Text
  new_password_errors form =
      if password_changed form
      then password_errors p (strip p.unicode form.password) form.username
      else []

  -- `user_edit_submit` once the user is found, on the cleaned form.
  unfoldable pub edit_user :
      UserForm → Text → Request → User → User → ℕ → Database → Response × Database
  edit_user form salt request current_user r now db =
      if not (valid_role form.role)
      then edit_error (lit "Role must be admin or user.") db
      else if is_some (find (is_other_named r.id form.username) db.users.rows)
      then edit_error (lit "Another user already has that username.") db
      else if not (is_empty (new_password_errors form))
      then edit_error (join (lit " ") (new_password_errors form)) db
      else if not (fits_user form)
      then (raised, db)
      else (redirect (lit "/admin/users"), edited form salt request current_user r now db)

  unfoldable pub user_edit_submit :
      ℕ → UserForm → Text → Request → Response ⊎ User → ℕ → Database → Response × Database
  user_edit_submit user_id form salt request (inl response) now db = (response, db)
  user_edit_submit user_id form salt request (inr current_user) now db =
      elim (find (is_live user_id) db.users.rows) [
        | none ↦ (redirect (lit "/admin/users"), db)
        | some r ↦ edit_user (clean form) salt request current_user r now db
      ]

  abbrev pub deactivate : User → User
  deactivate r = record r { is_active = false }

  abbrev pub deactivated : Request → User → User → ℕ → Database → Database
  deactivated request current_user r now db =
      let db' = record db {
        users = with_rows db.users (update_where (has_user_id r.id) deactivate db.users.rows);
      } in
      create_audit_log p (delete_user_sessions db' r.id) (lit "User Deactivated")
        (some current_user) none request (some (lit "Deactivated user: " ++ r.username)) now

  unfoldable pub user_deactivate_submit :
      ℕ → Request → Response ⊎ User → ℕ → Database → Response × Database
  user_deactivate_submit user_id request (inl response) now db = (response, db)
  user_deactivate_submit user_id request (inr current_user) now db = (
    redirect (lit "/admin/users"),
    elim (find (is_live user_id) db.users.rows) [
      | none ↦ db
      | some r ↦ deactivated request current_user r now db
    ],
  )

  -- The pages, which only read.
  unfoldable pub user_edit_page : ℕ → Response ⊎ User → Database → Response
  user_edit_page user_id (inl response) db = response
  user_edit_page user_id (inr current_user) db = elim (find (is_live user_id) db.users.rows) [
    | none ↦ redirect (lit "/admin/users")
    | some r ↦ page (lit "admin/user_edit.html") 200 none
  ]

  unfoldable pub run_post :
      UserPost → Text → Request → Response ⊎ User → ℕ → Database → Response × Database
  run_post (post_new form) salt request guard now db =
      user_create_submit form salt request guard now db
  run_post (post_edit user_id form) salt request guard now db =
      user_edit_submit user_id form salt request guard now db
  run_post (post_deactivate user_id) salt request guard now db =
      user_deactivate_submit user_id request guard now db

  -- A request to one of them: `require_csrf` runs first, then `require_admin`.
  unfoldable pub post : UserPost → Text → Text → Request → ℕ → Database → Response × Database
  post route salt csrf_token_value request now db = elim (require_csrf p request csrf_token_value) [
    | some error ↦ (error, db)
    | none ↦
        run_post route salt request
          (require_admin p (require_user p (get_current_user p request db now))) now db
  ]
