-- ===== src/Users/Access.antt =====
-- What a change of a user means for the user's sessions and logins.
use billsons_forms.Strings.{strip, truthy}
use billsons_forms.Auth.{create_audit_log, fits_session, login_submit, may_log_in}
use billsons_forms.Http.{Request, redirect, redirect_with_cookie}
use billsons_forms.Platform.{Platform, verified}
use billsons_forms.Sessions.{create_user_session, delete_user_sessions, get_user_from_session_token}
use billsons_forms.Sessions.Laws.{get_user-delete_user_sessions}
use billsons_forms.Auth.Laws.{
  check_credentials-accept_login, counted, get_user-create_audit_log, login_limit,
  login_submit-allowed,
}
use billsons_forms.Base.{
  All-map, Option, Text, ap, arith, false, find, find-append, find-eq-none, find-holds, find-none,
  inr, lit, none, refl, some, subst, sym, text_beq_refl, true, update_where, ℕ, ◌∙◌, ◌≡◌, ◌≢◌, ◌⊎◌,
}
use billsons_forms.Models.{Database, User, with_rows}
use billsons_forms.Users.{
  UserForm, apply_form, clean, create_user, created, deactivate, deactivated, edit_user, edited,
  ends_sessions, has_user_id, is_live, is_named, new_user, user_create_submit,
  user_deactivate_submit, user_edit_submit,
}

module _ (p : Platform) (salt : Text) (request : Request) (admin : User) (now : ℕ)
    (db : Database) where
  create_user-redirect :
      (form : UserForm)
      → (create_user p form salt request admin now db).0 ≡ redirect (lit "/admin/users")
      → (create_user p form salt request admin now db).1 ≡ created p form salt request admin now db
  unfolding create_user
  create_user-redirect form e = ground arith

  edit_user-redirect :
      (form : UserForm) (r : User)
      → (edit_user p form salt request admin r now db).0 ≡ redirect (lit "/admin/users")
      → (edit_user p form salt request admin r now db).1 ≡ edited p form salt request admin r now db
  unfolding edit_user
  edit_user-redirect form r e = ground arith

  -- Once an administrator deactivates a user, no token stands for that user any more.
  pub get_user-deactivate :
      (user_id : ℕ) (r : User) (token : Text) (later : ℕ) (u : User)
      → find (is_live user_id) db.users.rows ≡ some r
      → get_user_from_session_token p.digest
          (user_deactivate_submit p user_id request (inr admin) now db).1
          (some token)
          later
        ≡ some u
      → u.id ≢ user_id
  unfolding user_deactivate_submit
  get_user-deactivate user_id r token later u found e same =
      let e' : get_user_from_session_token p.digest (deactivated p request admin r now db)
            (some token) later
          ≡ some u =
        ground (arith, found, e) in
      ended e' (ground (arith, find-holds _ db.users.rows r found))
    where
      ended :
          get_user_from_session_token p.digest
              (deactivated p request admin r now db)
              (some token)
              later
            ≡ some u
          → u.id ≢ r.id
      ended e' =
          (get_user-delete_user_sessions p.digest
              (record db {
                users =
                    with_rows db.users
                      (update_where (has_user_id r.id) (deactivate p) db.users.rows);
              })
              r.id token later u).0
            (sym (get_user-create_audit_log p _ _ _ _ _ _ _ _ _) ∙ e')

  abbrev renamed : UserForm → User → Database
  renamed f r = record db {
    users =
        with_rows db.users (update_where (has_user_id r.id) (apply_form p f salt) db.users.rows);
  }

  get_user-edited :
      (f : UserForm) (r : User) (token : Option Text) (later : ℕ)
      → ends_sessions p f r ≡ true
      → get_user_from_session_token p.digest (edited p f salt request admin r now db) token later
        ≡ get_user_from_session_token p.digest (delete_user_sessions (renamed f r) r.id) token later
  get_user-edited f r token later ends =
      get_user-create_audit_log p _ _ _ _ _ _ _ _ _ ∙ (rw ends refl)

  edited-ends :
      (f : UserForm) (r : User) (token : Text) (later : ℕ) (u : User)
      → ends_sessions p f r ≡ true
      → get_user_from_session_token p.digest
          (edited p f salt request admin r now db)
          (some token)
          later
        ≡ some u
      → u.id ≢ r.id
  edited-ends f r token later u ends e =
      (get_user-delete_user_sessions p.digest (renamed f r) r.id token later u).0
        (sym (get_user-edited f r (some token) later ends) ∙ e)

  -- An edit that sets a new password, or makes an active user inactive, ends the user's sessions too.
  pub get_user-user_edit_submit :
      (user_id : ℕ) (form : UserForm) (r : User) (token : Text) (later : ℕ) (u : User)
      → find (is_live user_id) db.users.rows ≡ some r
      → (truthy (strip p.unicode form.password) ≡ true)
        ⊎ ((r.is_active ≡ true) × (form.is_active ≡ false))
      → (user_edit_submit p user_id form salt request (inr admin) now db).0
        ≡ redirect (lit "/admin/users")
      → get_user_from_session_token p.digest
          (user_edit_submit p user_id form salt request (inr admin) now db).1
          (some token)
          later
        ≡ some u
      → u.id ≢ user_id
  unfolding user_edit_submit
  get_user-user_edit_submit user_id form r token later u found changes done e same =
      let done' : (edit_user p (clean p form) salt request admin r now db).0
          ≡ redirect (lit "/admin/users") =
        ground (arith, found, done) in
      let e' : get_user_from_session_token p.digest
            (edit_user p (clean p form) salt request admin r now db).1 (some token) later
          ≡ some u =
        ground (arith, found, e) in
      let e'' =
        ap (λ d. get_user_from_session_token p.digest d (some token) later)
          (sym (edit_user-redirect (clean p form) r done'))
        ∙ e' in
      edited-ends (clean p form) r token later u (ends_of changes) e''
        (ground (arith, find-holds _ db.users.rows r found))
    where
      ends_of :
          (truthy (strip p.unicode form.password) ≡ true)
            ⊎ ((r.is_active ≡ true) × (form.is_active ≡ false))
          → ends_sessions p (clean p form) r ≡ true
      ends_of changes = ground arith

  create_user-absent :
      (form : UserForm)
      → (create_user p form salt request admin now db).0 ≡ redirect (lit "/admin/users")
      → find (is_named form.username) db.users.rows ≡ none
  unfolding create_user
  create_user-absent form e = ground arith

  -- The new row is the one that its name finds.
  find-created :
      (f : UserForm)
      → f.is_active ≡ true
      → find (is_named f.username) db.users.rows ≡ none
      → find (may_log_in p f.username) (created p f salt request admin now db).users.rows
        ≡ some (new_user p f salt db.users.next_id)
  unfolding create_audit_log
  find-created f active absent = ground (
    arith,
    find-append (may_log_in p f.username) db.users.rows (new_user p f salt db.users.next_id),
    find-eq-none (may_log_in p f.username) db.users.rows (
        All-map _ _ db.users.rows (λ r miss. ground arith)
          (find-none (is_named f.username) db.users.rows absent)),
    text_beq_refl f.username,
  )

  -- A user that an administrator creates as active can log in with the name and the password that
  -- were typed into the form, where the hashes verify, the rate limit allows the login, and the user
  -- agent fits the column of the session, which takes 500 characters.
  pub create-login :
      (form : UserForm) (attempt : Request) (dummy_hash raw_token : Text) (later : ℕ)
      → ((salt password : Text) → p.argon2_verify (p.argon2_hash salt password) password ≡ verified)
      → form.is_active ≡ true
      → fits_session p attempt ≡ true
      → (user_create_submit p form salt request (inr admin) now db).0
        ≡ redirect (lit "/admin/users")
      → (login_limit p attempt later
          (user_create_submit p form salt request (inr admin) now db).1).0.allowed
        ≡ true
      → (login_submit p attempt form.username form.password dummy_hash raw_token later
          (user_create_submit p form salt request (inr admin) now db).1).0
        ≡ redirect_with_cookie (lit "/dashboard") raw_token
  unfolding user_create_submit create_user_session
  create-login form attempt dummy_hash raw_token later verifies active short done allowed =
      let f = clean p form in
      let absent = create_user-absent f done in
      let known = create_user-redirect f done in
      let found =
        subst
          (λ d.
            find (may_log_in p f.username) d.users.rows ≡ some (new_user p f salt db.users.next_id))
          (sym known) (find-created f active absent) in
      ap (λ x. x.0)
        (login_submit-allowed p attempt form.username form.password dummy_hash raw_token later
            (create_user p f salt request admin now db).1 allowed
          ∙ check_credentials-accept_login p attempt _ f.username form.password dummy_hash raw_token
              later (counted p attempt later (create_user p f salt request admin now db).1)
              (new_user p f salt db.users.next_id) found (verifies salt form.password) short)
