-- ===== src/Pages.antt =====
-- The pages that only read: app/web/dashboard.py, app/web/admin.py, and the GET routes of
-- app/web/admin_users.py and app/web/endpoints.py. A page is what its template is rendered with. The empty
-- forms and the two messages of the query are left out.
pub mod Laws
mod Examples
use billsons_forms.Base.{
  Bool, List, Text, [], false, find, holds, if◌then◌else◌, inl, inr, lit, map, nat_beq, nat_eq,
  newest, none, not, order_by, select, some, text_beq, text_eq, true, ℕ, ◌&&◌, ◌==◌, ◌∷◌, ◌⊎◌,
}
use billsons_forms.Models.{
  AuditLog, Database, EmailDeliveryJob, EndpointDeliveryLog, FormEndpoint, FormEndpointRecipient,
  User,
}
use billsons_forms.Http.{Request, Response, redirect}
use billsons_forms.Strings.{join, or_empty}
use billsons_forms.Origins.{origins_from_storage}
use billsons_forms.Auth.{get_current_user, require_admin, require_user}
use billsons_forms.Forms.{FormsPlatform, active_of}

-- The routes, with the id in the path.
pub data PageRoute : Type 0 where
  dashboard_route audit_route users_route endpoints_route : PageRoute
  user_edit_route endpoint_view_route endpoint_edit_route : ℕ → PageRoute

-- `endpoint_form`: the fields of the form as the page fills them in.
pub record EndpointForm : Type 0 where
  pub name : Text
  pub slug : Text
  pub description : Text
  pub recipients : Text
  pub sender_email : Text
  pub sender_name : Text
  pub smtp_host : Text
  pub smtp_port : ℕ
  pub smtp_username : Text
  pub smtp_security : Text
  pub reply_to_field : Text
  pub cap_enabled : Bool
  pub cap_verify_url : Text
  pub cap_site_key : Text
  pub success_redirect_url : Text
  pub error_redirect_url : Text
  pub allowed_origins : Text
  pub max_payload_kb : ℕ
  pub rate_limit_enabled : Bool
  pub rate_limit_requests : ℕ
  pub rate_limit_window_seconds : ℕ
  pub is_active : Bool

-- What the templates get besides the user.
pub data PageContent : Type 0 where
  nothing : PageContent
  audit_logs : List AuditLog → PageContent
  users : List User → PageContent
  user : User → PageContent
  endpoints : List FormEndpoint → PageContent
  endpoint :
      FormEndpoint
      → List FormEndpointRecipient
      → (allowed_origins : List Text) → List EndpointDeliveryLog
      → List EmailDeliveryJob
      → PageContent
  endpoint_edit : FormEndpoint → EndpointForm → PageContent

pub data Page : Type 0 where
  answers : Response → Page
  shows : (current_user : User) → PageContent → Page

-- `collation` is the order of texts in the database, and `job_created_at` the time at which the job with an
-- id was created, which nothing else reads.
module _ (p : FormsPlatform) (collation : Text → Text → Bool) (job_created_at : ℕ → ℕ) where
  abbrev pub endpoint_form : FormEndpoint → List FormEndpointRecipient → EndpointForm
  endpoint_form e recipients = record {
    name = e.name;
    slug = e.slug;
    description = or_empty e.description;
    recipients = join (10 ∷ []) (map (λ r. r.email) recipients);
    sender_email = e.sender_email;
    sender_name = or_empty e.sender_name;
    smtp_host = e.smtp_host;
    smtp_port = e.smtp_port;
    smtp_username = or_empty e.smtp_username;
    smtp_security = e.smtp_security;
    reply_to_field = or_empty e.reply_to_field;
    cap_enabled = e.cap_enabled;
    cap_verify_url = or_empty e.cap_verify_url;
    cap_site_key = or_empty e.cap_site_key;
    success_redirect_url = or_empty e.success_redirect_url;
    error_redirect_url = or_empty e.error_redirect_url;
    allowed_origins =
        join (10 ∷ [])
          (origins_from_storage p.platform.unicode p.network p.origins e.allowed_origins);
    max_payload_kb = e.max_payload_kb;
    rate_limit_enabled = e.rate_limit_enabled;
    rate_limit_requests = e.rate_limit_requests;
    rate_limit_window_seconds = e.rate_limit_window_seconds;
    is_active = e.is_active;
  }

  abbrev pub live_user : ℕ → User → Bool
  live_user user_id r = r.id == user_id && not r.is_deleted

  abbrev pub live_endpoint : ℕ → FormEndpoint → Bool
  live_endpoint endpoint_id r = r.id == endpoint_id && not r.is_deleted

  -- `order_by(FormEndpointRecipient.email)`.
  abbrev pub shown_recipients : ℕ → Database → List FormEndpointRecipient
  shown_recipients endpoint_id db =
      order_by
        (λ (a : FormEndpointRecipient) (b : FormEndpointRecipient). collation a.email b.email)
        (select (active_of endpoint_id) db.recipients.rows)

  abbrev pub shown_logs : ℕ → Database → List EndpointDeliveryLog
  shown_logs endpoint_id db =
      newest (λ (l : EndpointDeliveryLog). l.created_at) 20
        (select (λ (l : EndpointDeliveryLog). l.endpoint_id == endpoint_id) db.logs.rows)

  abbrev pub created_at_of : EmailDeliveryJob → ℕ
  created_at_of job = job_created_at job.id

  abbrev pub job_of : ℕ → EmailDeliveryJob → Bool
  job_of endpoint_id job = holds (λ id. id == endpoint_id) job.endpoint_id

  abbrev pub shown_jobs : ℕ → Database → List EmailDeliveryJob
  shown_jobs endpoint_id db = newest created_at_of 20 (select (job_of endpoint_id) db.jobs.rows)

  abbrev pub shown_audit_logs : Database → List AuditLog
  shown_audit_logs db = newest (λ (l : AuditLog). l.created_at) 100 db.audits.rows

  abbrev pub shown_users : Database → List User
  shown_users db =
      order_by (λ (a : User) (b : User). collation a.username b.username)
        (select (λ (r : User). not r.is_deleted) db.users.rows)

  abbrev pub shown_endpoints : Database → List FormEndpoint
  shown_endpoints db =
      order_by (λ (a : FormEndpoint) (b : FormEndpoint). collation a.name b.name)
        (select (λ (r : FormEndpoint). not r.is_deleted) db.endpoints.rows)

  -- The handlers, behind the guard of their route.
  abbrev pub dashboard : Database → User → Page
  dashboard db current_user = shows current_user nothing

  abbrev pub audit_log_page : Database → User → Page
  audit_log_page db current_user = shows current_user (audit_logs (shown_audit_logs db))

  abbrev pub users_index : Database → User → Page
  users_index db current_user = shows current_user (users (shown_users db))

  abbrev pub user_edit_page : ℕ → Database → User → Page
  user_edit_page user_id db current_user = elim (find (live_user user_id) db.users.rows) [
    | none ↦ answers (redirect (lit "/admin/users"))
    | some r ↦ shows current_user (user r)
  ]

  abbrev pub endpoint_index : Database → User → Page
  endpoint_index db current_user = shows current_user (endpoints (shown_endpoints db))

  abbrev pub endpoint_view_page : ℕ → Database → User → Page
  endpoint_view_page endpoint_id db current_user =
      elim (find (live_endpoint endpoint_id) db.endpoints.rows) [
        | none ↦ answers (redirect (lit "/endpoints"))
        | some e ↦ shows current_user (
            endpoint e (shown_recipients e.id db)
              (origins_from_storage p.platform.unicode p.network p.origins e.allowed_origins)
              (shown_logs e.id db) (shown_jobs e.id db))
      ]

  abbrev pub endpoint_edit_page : ℕ → Database → User → Page
  endpoint_edit_page endpoint_id db current_user =
      elim (find (live_endpoint endpoint_id) db.endpoints.rows) [
        | none ↦ answers (redirect (lit "/endpoints"))
        | some e ↦ shows current_user (endpoint_edit e (endpoint_form e (shown_recipients e.id db)))
      ]

  abbrev pub show : PageRoute → Database → User → Page
  show dashboard_route = dashboard
  show audit_route = audit_log_page
  show users_route = users_index
  show (user_edit_route user_id) = user_edit_page user_id
  show endpoints_route = endpoint_index
  show (endpoint_view_route endpoint_id) = endpoint_view_page endpoint_id
  show (endpoint_edit_route endpoint_id) = endpoint_edit_page endpoint_id

  -- The pages of the administrators.
  abbrev pub for_admins : PageRoute → Bool
  for_admins audit_route = true
  for_admins users_route = true
  for_admins (user_edit_route user_id) = true
  for_admins _ = false

  abbrev guard : PageRoute → Response ⊎ User → Response ⊎ User
  guard route entry = if for_admins route then require_admin p.platform entry else entry

  abbrev pub rendered : PageRoute → Database → Response ⊎ User → Page
  rendered route db (inl response) = answers response
  rendered route db (inr current_user) = show route db current_user

  unfoldable pub get_page : PageRoute → Request → Database → ℕ → Page
  get_page route request db now =
      rendered route db
        (guard route (require_user p.platform (get_current_user p.platform request db now)))
