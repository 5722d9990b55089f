-- ===== src/Validation/Samples.antt =====
-- A form that is filled in well, for the examples.
use billsons_forms.Base.{[], false, lit, true}
use billsons_forms.Validation.{RawForm}

abbrev pub sample_form : RawForm
sample_form = record {
  name = lit "Contact";
  slug = lit "c";
  description = [];
  recipients = lit "a@b.c";
  sender_email = lit "f@b.c";
  sender_name = [];
  smtp_host = lit "b.c";
  smtp_port = lit "587";
  smtp_username = [];
  smtp_password = [];
  smtp_security = lit "starttls";
  reply_to_field = [];
  cap_verify_url = [];
  cap_site_key = [];
  cap_secret_key = [];
  success_redirect_url = [];
  error_redirect_url = [];
  allowed_origins = [];
  max_payload_kb = lit "256";
  rate_limit_requests = lit "5";
  rate_limit_window_seconds = lit "60";
  cap_enabled = false;
  rate_limit_enabled = true;
  is_active = true;
}
