-- ===== src/Users/Changes.antt =====
-- Which changes of the database a request to the administration of users can make, and for whom.
use billsons_forms.Base.{
  Bool, Option-cases, Text, [], arith, false, find, if◌then◌else◌, inl, inr, is_empty-[],
  is_some-none, none, not, not-false, refl, some, true, ℕ, ◌||◌, ◌≡◌,
}
use billsons_forms.Models.{Database, User}
use billsons_forms.Strings.{truthy}
use billsons_forms.Http.{Request, Response}
use billsons_forms.Platform.{Platform}
use billsons_forms.Auth.{password_errors}
use billsons_forms.Users.{
  UserForm, UserPost, clean, create_user, created, deactivated, edit_user, edited, fits_user,
  is_live, is_named, is_other_named, new_password_errors, post_deactivate, post_edit, post_new,
  run_post, user_create_submit, user_deactivate_submit, user_edit_submit, valid_role,
}

module _ (p : Platform) (salt : Text) (request : Request) (now : ℕ) where
  -- A guard that answers without a change.
  guarded :
      (P : Database → Type 0) (test : Bool) {db : Database} (response : Response)
      (rest : Response × Database)
      → P db
      → (test ≡ false → P rest.1)
      → P (if test then (response, db) else rest).1
  guarded P false response rest stay go = go refl
  guarded P true response rest stay go = stay

  -- What the routes may do, for the administrator that sent the request.
  pub data Change (admin : User) : UserPost → Database → Database → Type 0 where
    unchanged : {route : UserPost} {db : Database} → Change admin route db db
    creates :
        {form : UserForm} {db : Database}
        → valid_role (clean p form).role ≡ true
        → truthy (clean p form).username ≡ true
        → password_errors p form.password (clean p form).username ≡ []
        → find (is_named (clean p form).username) db.users.rows ≡ none
        → fits_user p (clean p form) ≡ true
        → Change admin (post_new form) db (created p (clean p form) salt request admin now db)
    edits :
        {user_id : ℕ} {form : UserForm} {db : Database} (r : User)
        → find (is_live user_id) db.users.rows ≡ some r
        → valid_role (clean p form).role ≡ true
        → new_password_errors p (clean p form) ≡ []
        → find (is_other_named r.id (clean p form).username) db.users.rows ≡ none
        → fits_user p (clean p form) ≡ true
        → Change admin
            (post_edit user_id form)
            db
            (edited p (clean p form) salt request admin r now db)
    deactivates :
        {user_id : ℕ} {db : Database} (r : User)
        → find (is_live user_id) db.users.rows ≡ some r
        → Change admin (post_deactivate user_id) db (deactivated p request admin r now db)

  create_user-Change :
      (form : UserForm) (admin : User) (db : Database)
      → Change admin (post_new form) db (create_user p (clean p form) salt request admin now db).1
  unfolding create_user
  create_user-Change form admin db =
      guarded (Change admin (post_new form) db) _ _ _ unchanged (λ role_ok.
        guarded (Change admin (post_new form) db) _ _ _ unchanged
          (λ (filled : (not (truthy (clean p form).username)
                || not (truthy (clean p form).display_name)
                || not (truthy form.password))
              ≡ false).
            guarded (Change admin (post_new form) db) _ _ _ unchanged (λ good.
              guarded (Change admin (post_new form) db) _ _ _ unchanged (λ new.
                guarded (Change admin (post_new form) db) _ _ _ unchanged (λ fit.
                  creates (not-false role_ok) (ground arith) (is_empty-[] _ (not-false good))
                    (is_some-none _ new) (not-false fit))))))

  edit_user-Change :
      (user_id : ℕ) (form : UserForm) (admin r : User) (db : Database)
      → find (is_live user_id) db.users.rows ≡ some r
      → Change admin
          (post_edit user_id form)
          db
          (edit_user p (clean p form) salt request admin r now db).1
  unfolding edit_user
  edit_user-Change user_id form admin r db found =
      guarded (Change admin (post_edit user_id form) db) _ _ _ unchanged (λ role_ok.
        guarded (Change admin (post_edit user_id form) db) _ _ _ unchanged (λ new.
          guarded (Change admin (post_edit user_id form) db) _ _ _ unchanged (λ good.
            guarded (Change admin (post_edit user_id form) db) _ _ _ unchanged (λ fit.
              edits r found (not-false role_ok) (is_empty-[] _ (not-false good))
                (is_some-none _ new) (not-false fit)))))

  pub run_post-Change :
      (route : UserPost) (admin : User) (db : Database)
      → Change admin route db (run_post p route salt request (inr admin) now db).1
  unfolding run_post user_create_submit user_edit_submit user_deactivate_submit
  run_post-Change (post_new form) admin db = create_user-Change form admin db
  run_post-Change (post_edit user_id form) admin db =
      elim (Option-cases (find (is_live user_id) db.users.rows)) [
        | inl missing ↦ rw (missing, run_post, user_edit_submit) unchanged
        | inr (r, found) ↦
            rw (found, run_post, user_edit_submit) (edit_user-Change user_id form admin r db found)
      ]
  run_post-Change (post_deactivate user_id) admin db =
      elim (Option-cases (find (is_live user_id) db.users.rows)) [
        | inl missing ↦ rw (missing, run_post, user_deactivate_submit) unchanged
        | inr (r, found) ↦ rw (found, run_post, user_deactivate_submit) (deactivates r found)
      ]
