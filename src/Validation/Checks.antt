-- ===== src/Validation/Checks.antt =====
-- `validate_endpoint_config`: every check of a form, in order, and the values that it gives.
use billsons_forms.Base.{
  Bool, List, Option, Text, [], false, if◌then◌else◌, is_none, lit, map, not, true, ℕ, ◌&&◌, ◌++◌,
  ◌||◌,
}
use billsons_forms.Strings.{Unicode, decimal, strip, truthy, truthy_option}
use billsons_forms.Config.{Settings}
use billsons_forms.Integers.{parse_int}
use billsons_forms.Snapshot.{is_security}
use billsons_forms.Network.{NetworkLibrary, Result, is_email, normalize_hostname}
use billsons_forms.Origins.{OriginLibrary, origins_from_text}
use billsons_forms.Validation.{
  EndpointValues, Errors, RawForm, dedupe, error_when, host_error, host_or, in_range, is_field_name,
  is_slug, number_or_zero, origins_error, origins_or_none, recipients_error, stripped_lines,
  validate_http_url,
}

module _ (u : Unicode) (net : NetworkLibrary) (lib : OriginLibrary) (s : Settings) (raw : RawForm)
    (existing_smtp_secret existing_cap_secret : Bool) where
  abbrev pub validated_slug : Text
  validated_slug = u.lower (strip u raw.slug)

  abbrev pub validated_host : Result Text
  validated_host = normalize_hostname u net raw.smtp_host

  abbrev pub validated_port : Option ℕ
  validated_port = in_range 1 65535 (parse_int u raw.smtp_port)

  abbrev pub validated_origins : Result (List Text)
  validated_origins = origins_from_text u net lib raw.allowed_origins

  abbrev pub validated_payload : Option ℕ
  validated_payload = in_range 1 s.absolute_max_payload_kb (parse_int u raw.max_payload_kb)

  abbrev pub validated_requests : Option ℕ
  validated_requests = in_range 1 10000 (parse_int u raw.rate_limit_requests)

  abbrev pub validated_window : Option ℕ
  validated_window = in_range 1 86400 (parse_int u raw.rate_limit_window_seconds)

  -- The errors up to the URL of the CAP service.
  unfoldable pub first_errors : Errors
  first_errors =
      error_when
        (truthy (strip u raw.reply_to_field) && not (is_field_name (strip u raw.reply_to_field)))
        (lit "reply_to_field") (lit "Reply-To field must be a simple form field name.")
        (error_when (not (is_security (strip u raw.smtp_security))) (lit "smtp_security")
          (lit "SMTP security must be None, STARTTLS or SSL/TLS.")
          (error_when (is_none validated_port) (lit "smtp_port")
            (lit "SMTP port must be between 1 and 65535.")
            (host_error u net lib validated_host (
              error_when (not (is_email u net (strip u raw.sender_email))) (lit "sender_email")
                (lit "Enter a valid sender email address.")
                (recipients_error u net lib (stripped_lines u net lib (strip u raw.recipients)) (
                  error_when (not (is_slug validated_slug)) (lit "slug")
                    (lit "Use lowercase letters, numbers and single hyphens only.")
                    (error_when (not (truthy (strip u raw.name))) (lit "name")
                      (lit "Endpoint name is required.") [])))))))

  abbrev pub cap_url : Option Text × Errors
  cap_url = validate_http_url u net lib raw.cap_verify_url (lit "cap_verify_url") first_errors true

  unfoldable pub cap_errors : Errors → Errors
  cap_errors errors =
      if raw.cap_enabled
      then error_when (not (truthy (strip u raw.cap_secret_key)) && not existing_cap_secret)
          (lit "cap_secret_key") (lit "CAP secret key is required when CAP is enabled.")
          (error_when (not (truthy (strip u raw.cap_site_key))) (lit "cap_site_key")
            (lit "CAP site key is required when CAP is enabled.")
            (error_when (not (truthy_option cap_url.0)) (lit "cap_verify_url")
              (lit "The full CAP siteverify URL is required when CAP is enabled.") errors))
      else errors

  abbrev pub success_url : Option Text × Errors
  success_url =
      validate_http_url u net lib raw.success_redirect_url (lit "success_redirect_url")
        (cap_errors cap_url.1) false

  abbrev pub error_url : Option Text × Errors
  error_url =
      validate_http_url u net lib raw.error_redirect_url (lit "error_redirect_url") success_url.1
        false

  unfoldable pub last_errors : Errors → Errors
  last_errors errors =
      error_when (is_none validated_requests || is_none validated_window)
        (lit "rate_limit_requests")
        (lit "Rate limit must use 1-10,000 requests and a 1-86,400 second window.")
        (error_when
          (not (truthy (strip u raw.smtp_password))
            && truthy (strip u raw.smtp_username)
            && not existing_smtp_secret)
          (lit "smtp_password") (lit "SMTP password is required when a username is configured.")
          (error_when (is_none validated_payload) (lit "max_payload_kb")
            (lit "Payload limit must be between 1 and "
              ++ decimal s.absolute_max_payload_kb
              ++ lit " KB.")
            (origins_error u net lib validated_origins errors)))

  unfoldable pub endpoint_values : EndpointValues
  endpoint_values = record {
    name = strip u raw.name;
    slug = validated_slug;
    recipient_emails = dedupe [] (map u.lower (stripped_lines u net lib (strip u raw.recipients)));
    sender_email = strip u raw.sender_email;
    smtp_host = host_or u net lib raw.smtp_host validated_host;
    smtp_port = number_or_zero validated_port;
    smtp_username = strip u raw.smtp_username;
    smtp_security = strip u raw.smtp_security;
    reply_to_field = strip u raw.reply_to_field;
    cap_verify_url = cap_url.0;
    cap_site_key = strip u raw.cap_site_key;
    success_redirect_url = success_url.0;
    error_redirect_url = error_url.0;
    normalized_origins = origins_or_none u net lib validated_origins;
    max_payload_kb = number_or_zero validated_payload;
    rate_limit_requests = number_or_zero validated_requests;
    rate_limit_window_seconds = number_or_zero validated_window;
  }

  unfoldable pub validate_endpoint_config : EndpointValues × Errors
  validate_endpoint_config = (endpoint_values, last_errors error_url.1)
