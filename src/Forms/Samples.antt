-- ===== src/Forms/Samples.antt =====
-- A form with one recipient and a submission to it in JSON, for the examples.
use billsons_forms.Base.{List, Text, [], false, if◌then◌else◌, lit, none, some, text_beq, true, ◌∷◌}
use billsons_forms.Models.{Database, FormEndpoint}
use billsons_forms.Strings.{truthy}
use billsons_forms.Http.{Request}
use billsons_forms.Payloads.{json_object}
use billsons_forms.Cap.{other_exception}
use billsons_forms.Snapshot.Samples.{codec, mail}
use billsons_forms.Platform.Samples.{sample, sample_network, sample_origins, site}
use billsons_forms.Forms.{FormsPlatform}

-- Every body holds the object of one field.
abbrev pub sample_forms : FormsPlatform
sample_forms = record {
  platform = sample;
  network = sample_network;
  origins = sample_origins;
  Value = Text;
  payloads = record {
    loads = λ t. json_object ((lit "name", lit "Ada") ∷ []);
    decode_utf8 = λ t. some t;
    parse_qs = λ t. some [];
    text_value = λ t. t;
    list_value = λ ts. [];
    as_text = λ t. some t;
    is_truthy = truthy;
    show = λ t. t;
  };
  codec = codec;
  cap_post = λ url secret token. other_exception;
}

abbrev pub contact : FormEndpoint
contact = record {
  id = 1;
  name = lit "Contact";
  slug = lit "c";
  description = none;
  owner_user_id = some 1;
  is_active = true;
  is_deleted = false;
  success_redirect_url = none;
  error_redirect_url = none;
  allowed_origins = none;
  reply_to_field = none;
  email_subject = mail.subject;
  email_template = none;
  smtp_host = mail.smtp_host;
  smtp_port = mail.smtp_port;
  smtp_username = none;
  smtp_password = none;
  smtp_security = mail.smtp_security;
  sender_email = mail.sender_email;
  sender_name = none;
  cap_enabled = false;
  cap_verify_url = none;
  cap_site_key = none;
  cap_secret_key = none;
  max_payload_kb = 1;
  rate_limit_enabled = true;
  rate_limit_requests = 1;
  rate_limit_window_seconds = 60;
}

abbrev pub contact_site : Database
contact_site = record site {
  endpoints = record { rows = contact ∷ []; next_id = 2 };
  recipients = record {
    rows =
        record {
          id = 1;
          endpoint_id = 1;
          email = lit "a@b.c";
          display_name = none;
          recipient_type = lit "to";
          is_active = true;
        }
        ∷ [];
    next_id = 2;
  };
}

abbrev pub post : Request
post = record {
  client_host = some (lit "10.0.0.1");
  header =
      λ name. if text_beq name (lit "content-type") then some (lit "application/json") else none;
  cookie = λ name. none;
}

abbrev pub chunks : List Text
chunks = lit "{}" ∷ []
