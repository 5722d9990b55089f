-- ===== src/Endpoints.antt =====
-- app/web/endpoints.py: the administration of endpoints. What the pages show besides the error is left
-- out. The two nonces are what the cipher draws for the secrets of the form.
pub mod Routes
pub mod Changes
mod Examples
pub mod Laws
pub mod Slugs
pub mod View
pub mod Service
pub mod Recipients
use billsons_forms.Base.{
  Bool, List, Option, Text, [], all, delete_where, false, find, if◌then◌else◌, is_some, lit,
  nat_beq, nat_eq, none, not, some, text_beq, text_eq, true, ℕ, ◌&&◌, ◌++◌, ◌==◌, ◌∷◌,
}
use billsons_forms.Models.{
  Database, FormEndpoint, FormEndpointRecipient, Table, fits, insert, with_rows,
}
use billsons_forms.Strings.{decimal, or_empty, or_none, strip, truthy, truthy_option}
use billsons_forms.Http.{Response, redirect}
use billsons_forms.Network.{Result}
use billsons_forms.Origins.{origins_to_storage}
use billsons_forms.Snapshot.{encrypt_value}
use billsons_forms.Email.{SmtpLibrary}
use billsons_forms.Auth.{create_audit_log, get_current_user, require_csrf, require_user}
use billsons_forms.Cap.{CapResult, is_success, status_value, test_cap_service}
use billsons_forms.Validation.Checks.{validate_endpoint_config}
use billsons_forms.Validation.{EndpointValues, Errors, RawForm, error_when}
use billsons_forms.Forms.{FormsPlatform, stored}

-- The libraries of the API, the SMTP session and `quote_plus`.
pub record EndpointPlatform : Type 1 where
  pub forms : FormsPlatform
  pub smtp : SmtpLibrary forms.Value
  pub quote_plus : Text → Text

-- The routes of the router that change state.
pub data EndpointPost : Type 0 where
  create_route : RawForm → EndpointPost
  edit_route : ℕ → RawForm → EndpointPost
  delete_route test_smtp_route test_cap_route : ℕ → EndpointPost

-- The rows that are not deleted, which the handlers look an id up in.
abbrev pub is_live : ℕ → FormEndpoint → Bool
is_live endpoint_id r = r.id == endpoint_id && not r.is_deleted

abbrev pub has_slug : Text → FormEndpoint → Bool
has_slug slug r = r.slug == slug

-- A row of another id with the slug.
abbrev pub is_other_slug : ℕ → Text → FormEndpoint → Bool
is_other_slug endpoint_id slug r = r.slug == slug && not (r.id == endpoint_id)

abbrev pub has_id : ℕ → FormEndpoint → Bool
has_id endpoint_id r = r.id == endpoint_id

-- `next(iter(errors.values()), None)`.
abbrev pub first_message : Errors → Option Text
first_message [] = none
first_message ((field, message) ∷ errors) = some message

-- The endpoint that `endpoint_create_submit` starts from.
abbrev pub blank_endpoint : ℕ → ℕ → FormEndpoint
blank_endpoint owner_user_id id = record {
  id = id;
  name = [];
  slug = [];
  description = none;
  owner_user_id = some owner_user_id;
  is_active = true;
  is_deleted = false;
  success_redirect_url = none;
  error_redirect_url = none;
  allowed_origins = none;
  reply_to_field = none;
  email_subject = lit "New form submission";
  email_template = none;
  smtp_host = [];
  smtp_port = 0;
  smtp_username = none;
  smtp_password = none;
  smtp_security = [];
  sender_email = [];
  sender_name = none;
  cap_enabled = false;
  cap_verify_url = none;
  cap_site_key = none;
  cap_secret_key = none;
  max_payload_kb = 0;
  rate_limit_enabled = false;
  rate_limit_requests = 0;
  rate_limit_window_seconds = 0;
}

abbrev pub recipient_of : ℕ → Text → ℕ → FormEndpointRecipient
recipient_of endpoint_id email id = record {
  id = id;
  endpoint_id = endpoint_id;
  email = email;
  display_name = none;
  recipient_type = lit "to";
  is_active = true;
}

unfoldable pub add_recipients :
    ℕ → List Text → Table FormEndpointRecipient → Table FormEndpointRecipient
add_recipients endpoint_id [] recipients = recipients
add_recipients endpoint_id (email ∷ emails) recipients =
    add_recipients endpoint_id emails (insert (recipient_of endpoint_id email) recipients)

abbrev pub of_endpoint : ℕ → FormEndpointRecipient → Bool
of_endpoint endpoint_id r = r.endpoint_id == endpoint_id

unfoldable pub replace_recipients : Database → ℕ → List Text → Database
replace_recipients db endpoint_id emails = record db {
  recipients =
      add_recipients endpoint_id emails
        (with_rows db.recipients (delete_where (of_endpoint endpoint_id) db.recipients.rows));
}

abbrev pub disabled : FormEndpoint → FormEndpoint
disabled r = record r { is_deleted = true; is_active = false }

module _ (p : EndpointPlatform) (smtp_nonce cap_nonce : Text) where
  -- A secret of the form, which replaces the stored one only where it is given.
  abbrev pub secret_or : Text → Text → Option Text → Option Text
  secret_or nonce typed stored =
      let secret = strip p.forms.platform.unicode typed in
      if truthy secret
      then encrypt_value p.forms.platform.unicode p.forms.network p.forms.codec nonce (some secret)
      else stored

  -- `apply_values`, with what `origins_to_storage` has made of the origins.
  unfoldable pub apply_values : EndpointValues → RawForm → Option Text → FormEndpoint → FormEndpoint
  apply_values values raw allowed_origins r = record r {
    name = values.name;
    slug = values.slug;
    description = or_none (strip p.forms.platform.unicode raw.description);
    is_active = raw.is_active;
    success_redirect_url = or_none (or_empty values.success_redirect_url);
    error_redirect_url = or_none (or_empty values.error_redirect_url);
    allowed_origins = allowed_origins;
    reply_to_field = or_none values.reply_to_field;
    smtp_host = values.smtp_host;
    smtp_port = values.smtp_port;
    smtp_username = or_none values.smtp_username;
    smtp_security = values.smtp_security;
    sender_email = values.sender_email;
    sender_name = or_none (strip p.forms.platform.unicode raw.sender_name);
    cap_enabled = raw.cap_enabled;
    cap_verify_url = or_none (or_empty values.cap_verify_url);
    cap_site_key = or_none values.cap_site_key;
    max_payload_kb = values.max_payload_kb;
    rate_limit_enabled = raw.rate_limit_enabled;
    rate_limit_requests = values.rate_limit_requests;
    rate_limit_window_seconds = values.rate_limit_window_seconds;
    smtp_password = secret_or smtp_nonce raw.smtp_password r.smtp_password;
    cap_secret_key = secret_or cap_nonce raw.cap_secret_key r.cap_secret_key;
  }

  -- Whether the columns of an endpoint and of its recipients take the values.
  unfoldable pub fits_endpoint : EndpointValues → RawForm → Bool
  fits_endpoint values raw =
      fits 255 (some values.name)
      && fits 150 (some values.slug)
      && fits 150 (some values.reply_to_field)
      && fits 255 (some values.smtp_host)
      && fits 255 (some values.smtp_username)
      && fits 50 (some values.smtp_security)
      && fits 255 (some values.sender_email)
      && fits 255 (some (strip p.forms.platform.unicode raw.sender_name))
      && fits 255 (some values.cap_site_key)
      && all (λ email. fits 255 (some email)) values.recipient_emails

  abbrev pub stored_origins_of : EndpointValues → Result (Option Text)
  stored_origins_of values =
      origins_to_storage p.forms.platform.unicode p.forms.network p.forms.origins
        values.normalized_origins

  abbrev pub create_values : RawForm → EndpointValues × Errors
  create_values raw =
      validate_endpoint_config p.forms.platform.unicode p.forms.network p.forms.origins
        p.forms.platform.settings raw false false

  -- The errors, with that of a slug which is taken.
  abbrev pub create_errors : RawForm → Database → Errors
  create_errors raw db =
      error_when (is_some (find (has_slug (create_values raw).0.slug) db.endpoints.rows))
        (lit "slug") (lit "An endpoint already uses this slug.") (create_values raw).1

  abbrev pub edit_values : RawForm → FormEndpoint → EndpointValues × Errors
  edit_values raw r =
      validate_endpoint_config p.forms.platform.unicode p.forms.network p.forms.origins
        p.forms.platform.settings raw (truthy_option r.smtp_password)
        (truthy_option r.cap_secret_key)

  abbrev pub edit_errors : RawForm → FormEndpoint → Database → Errors
  edit_errors raw r db =
      error_when (is_some (find (is_other_slug r.id (edit_values raw r).0.slug) db.endpoints.rows))
        (lit "slug") (lit "Another endpoint already uses this slug.") (edit_values raw r).1

  abbrev pub location : ℕ → Response
  location endpoint_id = redirect (lit "/endpoints/" ++ decimal endpoint_id)
