-- ===== src/Endpoints/Changes.antt =====
-- Which changes of the database a request to the administration of endpoints can make.
use billsons_forms.Base.{
  Bool-cases, Option, Option-cases, Text, [], find, inl, inr, is_empty, is_empty-[], is_some-none,
  lit, map, none, refl, select, some, true, ℕ, ◌≡◌, ◌⊎◌,
}
use billsons_forms.Models.{Database, FormEndpoint, User}
use billsons_forms.Strings.{or_empty}
use billsons_forms.Http.{Request, Response, redirect}
use billsons_forms.Network.{ok}
use billsons_forms.Snapshot.Laws.{Result-cases}
use billsons_forms.Auth.{create_audit_log, get_current_user, require_csrf, require_user}
use billsons_forms.Cap.{test_cap_service}
use billsons_forms.Validation.{RawForm}
use billsons_forms.Validation.Laws.{error_when-none}
use billsons_forms.Forms.{active_of}
use billsons_forms.Endpoints.Routes.{
  create_endpoint, created, deleted, edit_endpoint, edited, post_endpoint, run_route, smtp_failure,
  test_cap, test_smtp, with_endpoint,
}
use billsons_forms.Endpoints.{
  EndpointPlatform, EndpointPost, create_errors, create_route, create_values, delete_route,
  edit_errors, edit_route, edit_values, fits_endpoint, has_slug, is_live, is_other_slug,
  stored_origins_of, test_cap_route, test_smtp_route,
}

module _ (p : EndpointPlatform) (smtp_nonce cap_nonce : Text) (request : Request) (now : ℕ) where
  -- What the routes may do, for the user that sent the request. The two tests of a live endpoint
  -- add one row to the audit log, under that user and the test's name.
  pub data Change (user : User) : EndpointPost → Database → Database → Type 0 where
    unchanged : {route : EndpointPost} {db : Database} → Change user route db db
    tests_smtp :
        {endpoint_id : ℕ} {db : Database} (r : FormEndpoint) (details : Text)
        → find (is_live endpoint_id) db.endpoints.rows ≡ some r
        → Change user (test_smtp_route endpoint_id) db (
            create_audit_log p.forms.platform db
              (lit "SMTP Configuration Tested")
              (some user)
              none
              request
              (some details)
              now)
    tests_cap :
        {endpoint_id : ℕ} {db : Database} (r : FormEndpoint) (details : Text)
        → find (is_live endpoint_id) db.endpoints.rows ≡ some r
        → Change user (test_cap_route endpoint_id) db (
            create_audit_log p.forms.platform db
              (lit "CAP Configuration Tested")
              (some user)
              none
              request
              (some details)
              now)
    creates :
        {raw : RawForm} {db : Database} (allowed_origins : Option Text)
        → (create_values p smtp_nonce cap_nonce raw).1 ≡ []
        → find (has_slug (create_values p smtp_nonce cap_nonce raw).0.slug) db.endpoints.rows ≡ none
        → stored_origins_of p smtp_nonce cap_nonce (create_values p smtp_nonce cap_nonce raw).0
          ≡ ok allowed_origins
        → fits_endpoint p smtp_nonce cap_nonce (create_values p smtp_nonce cap_nonce raw).0 raw
          ≡ true
        → Change user (create_route raw) db (
            created p smtp_nonce cap_nonce request user now
              (create_values p smtp_nonce cap_nonce raw).0
              raw
              allowed_origins
              db)
    edits :
        {endpoint_id : ℕ} {raw : RawForm} {db : Database} (r : FormEndpoint)
        (allowed_origins : Option Text)
        → find (is_live endpoint_id) db.endpoints.rows ≡ some r
        → (edit_values p smtp_nonce cap_nonce raw r).1 ≡ []
        → find
            (is_other_slug r.id (edit_values p smtp_nonce cap_nonce raw r).0.slug)
            db.endpoints.rows
          ≡ none
        → stored_origins_of p smtp_nonce cap_nonce (edit_values p smtp_nonce cap_nonce raw r).0
          ≡ ok allowed_origins
        → fits_endpoint p smtp_nonce cap_nonce (edit_values p smtp_nonce cap_nonce raw r).0 raw
          ≡ true
        → Change user (edit_route endpoint_id raw) db (
            edited p smtp_nonce cap_nonce request user now r
              (edit_values p smtp_nonce cap_nonce raw r).0
              raw
              allowed_origins
              db)
    deletes :
        {endpoint_id : ℕ} {db : Database} (r : FormEndpoint)
        → find (is_live endpoint_id) db.endpoints.rows ≡ some r
        → Change user
            (delete_route endpoint_id)
            db
            (deleted p smtp_nonce cap_nonce request user now r db)

  create_endpoint-Change :
      (raw : RawForm) (user : User) (db : Database)
      → Change user
          (create_route raw)
          db
          (create_endpoint p smtp_nonce cap_nonce request user now raw db).1
  unfolding create_endpoint
  create_endpoint-Change raw user db =
      elim (Bool-cases (is_empty (create_errors p smtp_nonce cap_nonce raw db))) [
        | inr bad ↦ rw bad unchanged
        | inl good ↦
            let (free, valid) = error_when-none _ _ _ _ (is_empty-[] _ good) in
            elim (Result-cases (
              stored_origins_of p smtp_nonce cap_nonce
                (create_values p smtp_nonce cap_nonce raw).0)) [
                  | inr (message, fails) ↦ rw good (rw fails unchanged)
                  | inl (allowed_origins, kept) ↦ rw good (
                      rw kept
                        (elim (Bool-cases (
                          fits_endpoint p smtp_nonce cap_nonce
                            (create_values p smtp_nonce cap_nonce raw).0 raw)) [
                              | inr long ↦ rw long unchanged
                              | inl fit ↦
                                  rw fit
                                    (creates allowed_origins valid (is_some-none _ free) kept fit)
                            ]))
                ]
      ]

  edit_endpoint-Change :
      (endpoint_id : ℕ) (raw : RawForm) (user : User) (r : FormEndpoint) (db : Database)
      → find (is_live endpoint_id) db.endpoints.rows ≡ some r
      → Change user
          (edit_route endpoint_id raw)
          db
          (edit_endpoint p smtp_nonce cap_nonce request user now raw r db).1
  unfolding edit_endpoint
  edit_endpoint-Change endpoint_id raw user r db found =
      elim (Bool-cases (is_empty (edit_errors p smtp_nonce cap_nonce raw r db))) [
        | inr bad ↦ rw bad unchanged
        | inl good ↦
            let (free, valid) = error_when-none _ _ _ _ (is_empty-[] _ good) in
            elim (Result-cases (
              stored_origins_of p smtp_nonce cap_nonce
                (edit_values p smtp_nonce cap_nonce raw r).0)) [
                  | inr (message, fails) ↦ rw good (rw fails unchanged)
                  | inl (allowed_origins, kept) ↦ rw good (
                      rw kept
                        (elim (Bool-cases (
                          fits_endpoint p smtp_nonce cap_nonce
                            (edit_values p smtp_nonce cap_nonce raw r).0 raw)) [
                              | inr long ↦ rw long unchanged
                              | inl fit ↦ rw fit (
                                  edits r allowed_origins found valid (is_some-none _ free) kept
                                    fit)
                            ]))
                ]
      ]

  test_smtp-Change :
      (endpoint_id : ℕ) (user : User) (r : FormEndpoint) (db : Database)
      → find (is_live endpoint_id) db.endpoints.rows ≡ some r
      → Change user
          (test_smtp_route endpoint_id)
          db
          (test_smtp p smtp_nonce cap_nonce request user now r db).1
  unfolding test_smtp
  test_smtp-Change endpoint_id user r db found =
      elim (Option-cases (
        smtp_failure p smtp_nonce cap_nonce request user now r
          (map (λ x. x.email) (select (active_of r.id) db.recipients.rows)))) [
            | inl sent ↦ rw (sent, test_smtp) (tests_smtp r _ found)
            | inr (name, fails) ↦ rw (fails, test_smtp) (tests_smtp r _ found)
          ]

  test_cap-Change :
      (endpoint_id : ℕ) (user : User) (r : FormEndpoint) (db : Database)
      → find (is_live endpoint_id) db.endpoints.rows ≡ some r
      → Change user
          (test_cap_route endpoint_id)
          db
          (test_cap p smtp_nonce cap_nonce request user now r db).1
  unfolding test_cap
  test_cap-Change endpoint_id user r db found =
      elim (Option-cases (
        test_cap_service p.forms.platform.unicode p.forms.network p.forms.origins p.forms.cap_post
          (or_empty r.cap_verify_url))) [
            | inl fails ↦ rw (fails, test_cap) unchanged
            | inr (result, told) ↦ rw (told, test_cap) (tests_cap r _ found)
          ]

  found-Change :
      (route : EndpointPost) (user : User) (endpoint_id : ℕ)
      (handle : FormEndpoint → Database → Response × Database) (db : Database)
      → ((r : FormEndpoint)
          → find (is_live endpoint_id) db.endpoints.rows ≡ some r
          → Change user route db (handle r db).1)
      → Change user route db
          (with_endpoint p smtp_nonce cap_nonce request user now endpoint_id handle db).1
  found-Change route user endpoint_id handle db handled =
      elim (Option-cases (find (is_live endpoint_id) db.endpoints.rows)) [
        | inl missing ↦ rw (missing, with_endpoint) unchanged
        | inr (r, found) ↦ rw (found, with_endpoint) (handled r found)
      ]

  pub run_route-Change :
      (route : EndpointPost) (user : User) (db : Database)
      → Change user route db (run_route p smtp_nonce cap_nonce request user now route db).1
  unfolding run_route
  run_route-Change (create_route raw) user db = create_endpoint-Change raw user db
  run_route-Change (edit_route endpoint_id raw) user db =
      found-Change _ user endpoint_id (edit_endpoint p smtp_nonce cap_nonce request user now raw) db
        (λ r found. edit_endpoint-Change endpoint_id raw user r db found)
  run_route-Change (delete_route endpoint_id) user db =
      found-Change _ user endpoint_id
        (λ r db.
          (redirect (lit "/endpoints"), deleted p smtp_nonce cap_nonce request user now r db))
        db (λ r found. deletes r found)
  run_route-Change (test_smtp_route endpoint_id) user db =
      found-Change _ user endpoint_id (test_smtp p smtp_nonce cap_nonce request user now) db
        (λ r found. test_smtp-Change endpoint_id user r db found)
  run_route-Change (test_cap_route endpoint_id) user db =
      found-Change _ user endpoint_id (test_cap p smtp_nonce cap_nonce request user now) db
        (λ r found. test_cap-Change endpoint_id user r db found)

  -- The request carries a token that fits its cookie, and the session of the user.
  pub record IsUserRequest (csrf_token_value : Text) (db : Database) (user : User) : Type 0 where
    pub csrf_ok : require_csrf p.forms.platform request csrf_token_value ≡ none
    pub logged_in : get_current_user p.forms.platform request db now ≡ some user

  -- A request changes nothing, unless it carries a fitting token and the session of a user: then its
  -- change is the one that its route is for.
  pub post_endpoint-Change :
      (route : EndpointPost) (csrf_token_value : Text) (db : Database)
      → ((post_endpoint p smtp_nonce cap_nonce route csrf_token_value request now db).1 ≡ db)
        ⊎ ((user : User) × IsUserRequest csrf_token_value db user
            × Change user route db
                (post_endpoint p smtp_nonce cap_nonce route csrf_token_value request now db).1)
  unfolding post_endpoint require_user
  post_endpoint-Change route csrf_token_value db =
      elim (Option-cases (require_csrf p.forms.platform request csrf_token_value)) [
        | inr (error, refused) ↦ inl (rw (refused, post_endpoint) refl)
        | inl accepted ↦ elim (Option-cases (get_current_user p.forms.platform request db now)) [
          | inl nobody ↦ inl (rw (accepted, post_endpoint) (rw nobody refl))
          | inr (user, known) ↦ inr (
            user,
            record { csrf_ok = accepted; logged_in = known },
            rw (accepted, post_endpoint) (rw known (run_route-Change route user db)),
          )
        ]
      ]
