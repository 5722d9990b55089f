-- ===== src/Validation/Accepted.antt =====
-- What a configuration without errors satisfies, field by field.
use billsons_forms.Validation.Passed.{
  cap_errors-none, first_errors-none, in_range-bounds, last_errors-none,
}
use billsons_forms.Base.{
  All, Bool, List, Text, [], arith, contains, false, map, nat_eq, refl, text_eq, true, ◌∷◌, ◌≡◌,
  ◌≢◌, ◌≤◌, ◌⊎◌,
}
use billsons_forms.Strings.{Unicode, strip, truthy, truthy_option}
use billsons_forms.Config.{Settings}
use billsons_forms.Integers.{parse_int}
use billsons_forms.Network.{NetworkLibrary, is_email, normalize_hostname, ok}
use billsons_forms.Origins.{OriginLibrary, origins_from_text}
use billsons_forms.Snapshot.{is_security}
use billsons_forms.Snapshot.Laws.{AllDistinct}
use billsons_forms.Validation.Checks.{endpoint_values, validate_endpoint_config}
use billsons_forms.Validation.{
  EndpointValues, RawForm, dedupe, is_field_name, is_slug, stripped_lines,
}
use billsons_forms.Validation.Laws.{
  IsHttpUrl, dedupe-All, dedupe-AllDistinct, dedupe-filled, validate_http_url-IsHttpUrl,
  validate_http_url-NoNewErrors,
}

module _ (u : Unicode) (net : NetworkLibrary) (lib : OriginLibrary) (s : Settings) (raw : RawForm)
    (smtp_kept cap_kept : Bool) where
  -- What the form gives is in its bounds and shapes, a secret that is needed is given or kept, the
  -- recipients are distinct addresses in lower case, and the origins are those that were typed, in
  -- their normal form. The lengths of columns are no part of it.
  pub record IsAccepted (v : EndpointValues) : Type 0 where
    pub name_filled : truthy v.name ≡ true
    pub slug_valid : is_slug v.slug ≡ true
    pub recipients_filled : v.recipient_emails ≢ []
    pub recipients_distinct : AllDistinct v.recipient_emails
    pub recipients_valid :
        All
          (λ email. (typed : Text) × (is_email u net typed ≡ true) × (u.lower typed ≡ email))
          v.recipient_emails
    pub sender_valid : is_email u net v.sender_email ≡ true
    pub host_normal : normalize_hostname u net raw.smtp_host ≡ ok v.smtp_host
    pub port_in_range : (1 ≤ v.smtp_port) × (v.smtp_port ≤ 65535)
    pub security_valid : is_security v.smtp_security ≡ true
    pub payload_in_range : (1 ≤ v.max_payload_kb) × (v.max_payload_kb ≤ s.absolute_max_payload_kb)
    pub requests_in_range : (1 ≤ v.rate_limit_requests) × (v.rate_limit_requests ≤ 10000)
    pub window_in_range : (1 ≤ v.rate_limit_window_seconds) × (v.rate_limit_window_seconds ≤ 86400)
    pub smtp_secret :
        truthy v.smtp_username ≡ true
        → (truthy (strip u raw.smtp_password) ≡ true) ⊎ (smtp_kept ≡ true)
    pub cap_complete :
        raw.cap_enabled ≡ true
        → (truthy_option v.cap_verify_url ≡ true)
          × (truthy v.cap_site_key ≡ true)
          × ((truthy (strip u raw.cap_secret_key) ≡ true) ⊎ (cap_kept ≡ true))
    pub reply_valid : truthy v.reply_to_field ≡ true → is_field_name v.reply_to_field ≡ true
    pub origins_valid : origins_from_text u net lib raw.allowed_origins ≡ ok v.normalized_origins
    pub cap_url_valid :
        truthy (strip u raw.cap_verify_url) ≡ true → IsHttpUrl u net lib true raw.cap_verify_url
    pub success_url_valid :
        truthy (strip u raw.success_redirect_url) ≡ true
        → IsHttpUrl u net lib false raw.success_redirect_url
    pub error_url_valid :
        truthy (strip u raw.error_redirect_url) ≡ true
        → IsHttpUrl u net lib false raw.error_redirect_url

  recipients_of :
      (typed : List Text)
      → All (λ e. is_email u net e ≡ true) typed
      → All
          (λ email. (t : Text) × (is_email u net t ≡ true) × (u.lower t ≡ email))
          (map u.lower typed)
  recipients_of [] h = tt
  recipients_of (t ∷ ts) h = ((t, h.0, refl), recipients_of ts h.1)

  first_kept : (typed : List Text) → typed ≢ [] → dedupe [] (map u.lower typed) ≢ []
  unfolding dedupe contains
  first_kept [] h = λ e. h refl
  first_kept (t ∷ ts) h = dedupe-filled (u.lower t ∷ []) (map u.lower ts) (λ e. cc)

  -- A form that makes no error gives values that have passed every check of it.
  pub validate_endpoint_config-IsAccepted :
      (validate_endpoint_config u net lib s raw smtp_kept cap_kept).1 ≡ []
      → IsAccepted (validate_endpoint_config u net lib s raw smtp_kept cap_kept).0
  unfolding validate_endpoint_config endpoint_values
  validate_endpoint_config-IsAccepted h =
      let last = last_errors-none u net lib s raw smtp_kept cap_kept _ h in
      let h1 =
        (validate_http_url-NoNewErrors u net lib _ _ false raw.error_redirect_url).none_before
          last.before in
      let h2 =
        (validate_http_url-NoNewErrors u net lib _ _ false raw.success_redirect_url).none_before
          h1 in
      let cap = cap_errors-none u net lib s raw smtp_kept cap_kept _ h2 in
      let h3 =
        (validate_http_url-NoNewErrors u net lib _ _ true raw.cap_verify_url).none_before
          cap.before in
      let first = first_errors-none u net lib s raw smtp_kept cap_kept h3 in
      record {
        name_filled = first.name;
        slug_valid = first.slug;
        recipients_filled =
            first_kept (stripped_lines u net lib (strip u raw.recipients)) first.filled;
        recipients_distinct = dedupe-AllDistinct [] _ tt;
        recipients_valid = dedupe-All _ [] _ tt (recipients_of _ first.recipients);
        sender_valid = first.sender;
        host_normal = first.host;
        port_in_range =
            in_range-bounds u net lib s raw smtp_kept cap_kept 1 65535 (parse_int u raw.smtp_port)
              first.port;
        security_valid = first.security;
        payload_in_range =
            in_range-bounds u net lib s raw smtp_kept cap_kept 1 s.absolute_max_payload_kb
              (parse_int u raw.max_payload_kb) last.payload;
        requests_in_range =
            in_range-bounds u net lib s raw smtp_kept cap_kept 1 10000
              (parse_int u raw.rate_limit_requests) (ground (arith, last.limits));
        window_in_range =
            in_range-bounds u net lib s raw smtp_kept cap_kept 1 86400
              (parse_int u raw.rate_limit_window_seconds) (ground (arith, last.limits));
        smtp_secret = λ given. ground (arith, last.secret, given);
        cap_complete = cap.complete;
        reply_valid = first.reply;
        origins_valid = last.origins;
        cap_url_valid = λ given.
            validate_http_url-IsHttpUrl u net lib _ _ true raw.cap_verify_url cap.before given;
        success_url_valid = λ given.
            validate_http_url-IsHttpUrl u net lib _ _ false raw.success_redirect_url h1 given;
        error_url_valid = λ given.
            validate_http_url-IsHttpUrl u net lib _ _ false raw.error_redirect_url last.before
              given;
      }
