-- ===== src/Pages/Laws.antt =====
-- Who sees a page, and what is on it.
use billsons_forms.Base.{
  All, All-In, All-newest, All-of_In, All-order_by, Bool, Bool-cases, In, In-find, In-order_by,
  In-select, In-select_of, List, Option-cases, Text, arith, false, find, find-holds, inl, inr,
  length, length-newest, lit, min, nat_eq, newest, newest_complete, none, not, order_by, select,
  select-holds, some, text_eq, true, ℕ, ◌==◌, ◌≡◌, ◌≤◌, ◌⊎◌,
}
use billsons_forms.Models.{
  AuditLog, Database, EmailDeliveryJob, EndpointDeliveryLog, FormEndpoint, FormEndpointRecipient,
  User,
}
use billsons_forms.Http.{Request, redirect}
use billsons_forms.Auth.{get_current_user, require_admin, require_user}
use billsons_forms.Origins.{origins_from_storage}
use billsons_forms.Forms.{FormsPlatform, active_of}
use billsons_forms.Pages.{
  Page, PageContent, PageRoute, answers, audit_logs, audit_route, created_at_of, dashboard_route,
  endpoint, endpoint_edit, endpoint_edit_page, endpoint_edit_route, endpoint_form,
  endpoint_view_page, endpoint_view_route, endpoints, endpoints_route, for_admins, get_page, job_of,
  live_endpoint, live_user, nothing, show, shows, user, user_edit_page, user_edit_route, users,
  users_route,
}

module _ {A : Type 0} where
  -- The rows that pass the test, all of them and no other.
  pub record IsListing (wanted : A → Bool) (rows shown : List A) : Type 0 where
    pub from_table : All (λ r. In r rows × (wanted r ≡ true)) shown
    pub complete : (r : A) → In r rows → wanted r ≡ true → In r shown

  -- As many rows as the limit allows, and none that is left out is newer than one of them.
  pub record IsNewest (key : A → ℕ) (limit : ℕ) (rows shown : List A) : Type 0 where
    pub from_table : All (λ r. In r rows) shown
    pub as_many : length shown ≡ min limit (length rows)
    pub complete : (r : A) → In r rows → In r shown ⊎ All (λ s. key r ≤ key s) shown

  listing :
      (first : A → A → Bool) (wanted : A → Bool) (rows : List A)
      → IsListing wanted rows (order_by first (select wanted rows))
  listing first wanted rows = record {
    from_table = All-order_by first _ (select wanted rows) (
        All-of_In _ (select wanted rows)
          (λ r i. (In-select wanted rows i, All-In _ _ (select-holds wanted rows) i)));
    complete = λ r i hit. In-order_by first _ (In-select_of wanted rows i hit);
  }

  newest-IsNewest :
      (key : A → ℕ) (limit : ℕ) (rows : List A) → IsNewest key limit rows (newest key limit rows)
  newest-IsNewest key limit rows = record {
    from_table = All-newest key _ limit rows (All-of_In _ rows (λ r i. i));
    as_many = length-newest key limit rows;
    complete = λ r i. newest_complete key limit rows i;
  }

module _ (p : FormsPlatform) (collation : Text → Text → Bool) (job_created_at : ℕ → ℕ) where
  -- What each page has, of the database.
  pub data IsOn (db : Database) : PageRoute → PageContent → Type 0 where
    on_dashboard : IsOn db dashboard_route nothing
    on_audit_log :
        {shown : List AuditLog}
        → IsNewest (λ (l : AuditLog). l.created_at) 100 db.audits.rows shown
        → IsOn db audit_route (audit_logs shown)
    on_users :
        {shown : List User}
        → IsListing (λ (r : User). not r.is_deleted) db.users.rows shown
        → IsOn db users_route (users shown)
    on_user :
        {r : User} {user_id : ℕ}
        → In r db.users.rows
        → live_user p collation job_created_at user_id r ≡ true
        → IsOn db (user_edit_route user_id) (user r)
    on_endpoints :
        {shown : List FormEndpoint}
        → IsListing (λ (r : FormEndpoint). not r.is_deleted) db.endpoints.rows shown
        → IsOn db endpoints_route (endpoints shown)
    on_endpoint :
        {e : FormEndpoint} {endpoint_id : ℕ} {recipients : List FormEndpointRecipient}
        {logs : List EndpointDeliveryLog} {jobs : List EmailDeliveryJob}
        → In e db.endpoints.rows
        → live_endpoint p collation job_created_at endpoint_id e ≡ true
        → IsListing (active_of e.id) db.recipients.rows recipients
        → IsNewest
            (λ (l : EndpointDeliveryLog). l.created_at)
            20
            (select (λ (l : EndpointDeliveryLog). l.endpoint_id == e.id) db.logs.rows)
            logs
        → IsNewest
            (created_at_of p collation job_created_at)
            20
            (select (job_of p collation job_created_at e.id) db.jobs.rows)
            jobs
        → IsOn db (endpoint_view_route endpoint_id) (
            endpoint e recipients
              (origins_from_storage p.platform.unicode p.network p.origins e.allowed_origins)
              logs
              jobs)
    on_endpoint_edit :
        {e : FormEndpoint} {endpoint_id : ℕ} {recipients : List FormEndpointRecipient}
        → In e db.endpoints.rows
        → live_endpoint p collation job_created_at endpoint_id e ≡ true
        → IsListing (active_of e.id) db.recipients.rows recipients
        → IsOn db
            (endpoint_edit_route endpoint_id)
            (endpoint_edit e (endpoint_form p collation job_created_at e recipients))

  -- The page of a row that is not there, or is deleted, and where the answer leads instead.
  pub data IsMissing (db : Database) : PageRoute → Text → Type 0 where
    no_user :
        {user_id : ℕ}
        → find (live_user p collation job_created_at user_id) db.users.rows ≡ none
        → IsMissing db (user_edit_route user_id) (lit "/admin/users")
    no_endpoint :
        {endpoint_id : ℕ}
        → find (live_endpoint p collation job_created_at endpoint_id) db.endpoints.rows ≡ none
        → IsMissing db (endpoint_view_route endpoint_id) (lit "/endpoints")
    no_endpoint_to_edit :
        {endpoint_id : ℕ}
        → find (live_endpoint p collation job_created_at endpoint_id) db.endpoints.rows ≡ none
        → IsMissing db (endpoint_edit_route endpoint_id) (lit "/endpoints")

  module _ (route : PageRoute) (request : Request) (db : Database) (now : ℕ) where
    -- The user of the session may see the page.
    pub record MaySee (r : User) : Type 0 where
      pub logged_in : get_current_user p.platform request db now ≡ some r
      pub admin :
          for_admins p collation job_created_at route ≡ true → (r.role == lit "admin") ≡ true

    pub data IsPage : Page → Type 0 where
      to_login :
          get_current_user p.platform request db now ≡ none
          → IsPage (answers (redirect (lit "/login")))
      to_dashboard :
          {r : User}
          → get_current_user p.platform request db now ≡ some r
          → for_admins p collation job_created_at route ≡ true
          → (r.role == lit "admin") ≡ false
          → IsPage (answers (redirect (lit "/dashboard")))
      missing :
          {r : User} {url : Text}
          → MaySee r
          → IsMissing db route url
          → IsPage (answers (redirect url))
      page_for :
          {r : User} {content : PageContent}
          → MaySee r
          → IsOn db route content
          → IsPage (shows r content)

  show-IsPage :
      (route : PageRoute) (request : Request) (db : Database) (now : ℕ) (r : User)
      → MaySee route request db now r
      → IsPage route request db now (show p collation job_created_at route db r)
  show-IsPage dashboard_route request db now r may = page_for may on_dashboard
  show-IsPage audit_route request db now r may =
      page_for may (on_audit_log (newest-IsNewest _ 100 _))
  show-IsPage users_route request db now r may = page_for may (on_users (listing _ _ _))
  show-IsPage endpoints_route request db now r may = page_for may (on_endpoints (listing _ _ _))
  show-IsPage (user_edit_route user_id) request db now r may =
      elim (Option-cases (find (live_user p collation job_created_at user_id) db.users.rows)) [
        | inl gone ↦ rw (gone, show, user_edit_page) (missing may (no_user gone))
        | inr (u, found) ↦
            rw (found, show, user_edit_page)
              (page_for may (on_user (In-find _ _ found) (find-holds _ _ u found)))
      ]
  show-IsPage (endpoint_view_route endpoint_id) request db now r may =
      elim (Option-cases
        (find (live_endpoint p collation job_created_at endpoint_id) db.endpoints.rows)) [
          | inl gone ↦ rw (gone, show, endpoint_view_page) (missing may (no_endpoint gone))
          | inr (e, found) ↦
              rw (found, show, endpoint_view_page)
                (page_for may (
                  on_endpoint (In-find _ _ found) (find-holds _ _ e found) (listing _ _ _)
                    (newest-IsNewest _ 20 _) (newest-IsNewest _ 20 _)))
        ]
  show-IsPage (endpoint_edit_route endpoint_id) request db now r may =
      elim (Option-cases
        (find (live_endpoint p collation job_created_at endpoint_id) db.endpoints.rows)) [
          | inl gone ↦ rw (gone, show, endpoint_edit_page) (missing may (no_endpoint_to_edit gone))
          | inr (e, found) ↦
              rw (found, show, endpoint_edit_page)
                (page_for may
                  (on_endpoint_edit (In-find _ _ found) (find-holds _ _ e found) (listing _ _ _)))
        ]

  -- Whoever asks for a page, and whatever the order of texts in the database is: without a session the
  -- answer leads to the login, and a user who is no administrator is led from the pages of the
  -- administrators to the dashboard. Anyone else gets the page of the route, unless its row is not there
  -- or deleted. A list has every row that is not deleted, and no other; the audit log has the hundred
  -- newest entries, and the page of an endpoint its active recipients and its twenty newest logs and jobs, or
  -- all where there are fewer.
  pub get_page-IsPage :
      (route : PageRoute) (request : Request) (db : Database) (now : ℕ)
      → IsPage route request db now (get_page p collation job_created_at route request db now)
  unfolding get_page require_user require_admin
  get_page-IsPage route request db now =
      elim (Option-cases (get_current_user p.platform request db now)) [
        | inl nobody ↦
            rw (nobody, get_page)
              (elim (Bool-cases (for_admins p collation job_created_at route)) [
                | inl closed ↦ rw closed (to_login nobody)
                | inr open_to_all ↦ rw open_to_all (to_login nobody)
              ])
        | inr (r, known) ↦
            rw (known, get_page)
              (elim (Bool-cases (for_admins p collation job_created_at route)) [
                | inr open_to_all ↦ rw open_to_all (
                    show-IsPage route request db now r (record {
                      logged_in = known;
                      admin = λ closed. absurd (ground (arith, closed, open_to_all));
                    }))
                | inl closed ↦ elim (Bool-cases (r.role == lit "admin")) [
                  | inr no_admin ↦ rw (closed, no_admin) (to_dashboard known closed no_admin)
                  | inl admin ↦
                      rw (closed, admin)
                        (show-IsPage route request db now r
                          (record { logged_in = known; admin = λ closed. admin }))
                ]
              ])
      ]
