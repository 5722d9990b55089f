-- ===== src/Users/Laws.antt =====
-- What the administration of users keeps: who may change anything, names that tell users apart, and
-- sessions that end with a password or an account.
use billsons_forms.Users.Changes.{Change, creates, deactivates, edits, run_post-Change, unchanged}
use billsons_forms.Http.{Request, Response}
use billsons_forms.Sessions.{delete_user_sessions}
use billsons_forms.Auth.{
  create_audit_log, get_current_user, require_admin, require_csrf, require_user,
}
use billsons_forms.Platform.{Platform}
use billsons_forms.Base.{
  All-In, Bool-cases, In, Option-cases, Text, arith, false, find, find-none, inl, inr, lit, nat_eq,
  none, refl, some, subst, sym, text_beq_iff, text_beq_refl, text_eq, update_where, ℕ, ◌==◌, ◌≡◌,
  ◌≢◌, ◌⊎◌,
}
use billsons_forms.Models.{Database, Table, User, with_rows}
use billsons_forms.Models.Names.{IsNamed, insert-IsNamed, rename-IsNamed, update-IsNamed}
use billsons_forms.Users.{
  UserForm, UserPost, apply_form, clean, edited, ends_sessions, has_user_id, is_named,
  is_other_named, new_user, post, post_deactivate, post_edit, post_new, run_post,
  user_create_submit, user_deactivate_submit, user_edit_submit,
}

-- The rows have distinct keys, and two users of one name are one.
abbrev pub IsUserTable : Table User → Type 0
IsUserTable users = IsNamed (λ (r : User). r.id) (λ (r : User). r.username) users

pub new_name :
    (users : Table User) (u q : User)
    → find (is_named u.username) users.rows ≡ none
    → In q users.rows
    → u.username ≢ q.username
new_name users u q absent i e =
    let miss = All-In _ _ (find-none _ users.rows absent) i in
    cc (miss, e, text_beq_refl q.username)

other_name :
    (users : Table User) (user_id : ℕ) (name : Text) (q : User)
    → find (is_other_named user_id name) users.rows ≡ none
    → In q users.rows
    → has_user_id user_id q ≡ false
    → q.username ≢ name
other_name users user_id name q absent i other e =
    let miss = All-In _ _ (find-none _ users.rows absent) i in
    ground (arith, miss, text_beq_iff q.username name)

module _ (p : Platform) (salt : Text) (request : Request) (now : ℕ) where
  edited-users :
      (form : UserForm) (admin r : User) (db : Database)
      → (edited p form salt request admin r now db).users
        ≡ with_rows db.users
            (update_where (has_user_id r.id) (apply_form p form salt) db.users.rows)
  unfolding create_audit_log delete_user_sessions
  edited-users form admin r db = elim (Bool-cases (ends_sessions p form r)) [
    | inl ends ↦ rw ends refl
    | inr keeps ↦ rw keeps refl
  ]

  Change-IsUserTable :
      (admin : User) (route : UserPost) (db db' : Database)
      → Change p salt request now admin route db db'
      → IsUserTable db.users
      → IsUserTable db'.users
  unfolding create_audit_log delete_user_sessions
  Change-IsUserTable admin route db _ unchanged h = h
  Change-IsUserTable admin (post_new form) db _ (creates role_ok filled good absent fit) h =
      insert-IsNamed _ _ db.users (new_user p (clean p form) salt) (λ n. refl)
        (λ q i. new_name db.users (new_user p (clean p form) salt db.users.next_id) q absent i) h
  Change-IsUserTable admin (post_edit user_id form) db _ (edits r found role_ok good absent fit) h =
      subst IsUserTable (sym (edited-users (clean p form) admin r db)) (
        rename-IsNamed _ _ (has_user_id r.id) (apply_form p (clean p form) salt) db.users
          (clean p form).username (λ q hit. refl) (λ a b hit hit'. ground (arith, hit, hit'))
          (λ q i hit. refl) (λ q i miss. other_name db.users r.id _ q absent i miss) h)
  Change-IsUserTable admin (post_deactivate user_id) db _ (deactivates r found) h =
      update-IsNamed _ _ (has_user_id r.id) _ db.users (λ q. refl) (λ q. refl) h

  -- The request carries a token that fits its cookie, and the session of an administrator.
  pub record IsAdminRequest (csrf_token_value : Text) (db : Database) (admin : User) : Type 0 where
    pub csrf_ok : require_csrf p request csrf_token_value ≡ none
    pub logged_in : get_current_user p request db now ≡ some admin
    pub is_admin : admin.role ≡ lit "admin"

  run_post-refused :
      (route : UserPost) (response : Response) (db : Database)
      → (run_post p route salt request (inl response) now db).1 ≡ db
  unfolding run_post user_create_submit user_edit_submit user_deactivate_submit
  run_post-refused (post_new form) response db = refl
  run_post-refused (post_edit user_id form) response db = refl
  run_post-refused (post_deactivate user_id) response db = refl

  guard-cases :
      (route : UserPost) (csrf_token_value : Text) (db : Database)
      → ((post p route salt csrf_token_value request now db).1 ≡ db)
        ⊎ ((admin : User) × IsAdminRequest csrf_token_value db admin
            × ((post p route salt csrf_token_value request now db).1
                ≡ (run_post p route salt request (inr admin) now db).1))
  unfolding post require_admin require_user
  guard-cases route csrf_token_value db =
      elim (Option-cases (require_csrf p request csrf_token_value)) [
        | inr (error, refused) ↦ inl (rw (refused, post) refl)
        | inl accepted ↦ elim (Option-cases (get_current_user p request db now)) [
          | inl nobody ↦ inl (rw (accepted, post) (rw nobody (run_post-refused route _ db)))
          | inr (u, known) ↦ elim (Bool-cases (u.role == lit "admin")) [
            | inl admin ↦ inr (
              u,
              record {
                csrf_ok = accepted;
                logged_in = known;
                is_admin = (text_beq_iff u.role (lit "admin")).0 admin;
              },
              rw (accepted, post) (rw known (rw admin refl)),
            )
            | inr other ↦
                inl (rw (accepted, post) (rw known (rw other (run_post-refused route _ db))))
          ]
        ]
      ]

  -- A request to the administration of users changes nothing, unless it carries a token that fits
  -- its cookie and the session of an administrator: then its change is the one that its route is
  -- for, made for that administrator.
  pub post-Change :
      (route : UserPost) (csrf_token_value : Text) (db : Database)
      → ((post p route salt csrf_token_value request now db).1 ≡ db)
        ⊎ ((admin : User) × IsAdminRequest csrf_token_value db admin
            × Change p salt request now admin route db
                (post p route salt csrf_token_value request now db).1)
  post-Change route csrf_token_value db = elim (guard-cases route csrf_token_value db) [
    | inl same ↦ inl same
    | inr (admin, authorised, e) ↦ inr (
      admin,
      authorised,
      subst (Change p salt request now admin route db) (sym e)
          (run_post-Change p salt request now route admin db),
    )
  ]

  -- Users keep distinct keys, and no two users share a name, whatever request is made.
  pub post-IsUserTable :
      (route : UserPost) (csrf_token_value : Text) (db : Database)
      → IsUserTable db.users
      → IsUserTable (post p route salt csrf_token_value request now db).1.users
  post-IsUserTable route csrf_token_value db h = elim (post-Change route csrf_token_value db) [
    | inl same ↦ subst (λ (d : Database). IsUserTable d.users) (sym same) h
    | inr (admin, authorised, change) ↦ Change-IsUserTable admin route db _ change h
  ]
