-- ===== src/Validation.antt =====
-- app/core/endpoint_validation.py: the checks of an endpoint's configuration. The form is the one that
-- `submitted_form` of app/web/endpoints.py makes: every field is a text, and three are ticks.
pub mod Checks
pub mod Samples
mod Examples
pub mod Laws
pub mod Passed
pub mod Accepted
use billsons_forms.Base.{
  Bool, List, Option, Text, [], all, any, contains, false, if◌then◌else◌, is_empty, is_some, leb,
  length, lit, map, nat_beq, nat_eq, none, not, select, some, text_beq, text_eq, ℕ, ◌&&◌, ◌++◌,
  ◌==◌, ◌||◌, ◌∷◌,
}
use billsons_forms.Strings.{
  Unicode, or_empty, rstrip_char, split_char, split_last, splitlines, strip, truthy, truthy_option,
}
use billsons_forms.Config.{Settings}
use billsons_forms.Integers.{ParsedInt, natural, negative, value_error}
use billsons_forms.Snapshot.{is_security}
use billsons_forms.Network.{
  NetworkLibrary, Result, contains_unsafe_text, err, host_for_url, is_alphanumeric, is_email, ok,
}
use billsons_forms.Origins.{OriginLibrary, SplitUrl, port_suffix}

pub record RawForm : Type 0 where
  pub name : Text
  pub slug : Text
  pub description : Text
  pub recipients : Text
  pub sender_email : Text
  pub sender_name : Text
  pub smtp_host : Text
  pub smtp_port : Text
  pub smtp_username : Text
  pub smtp_password : Text
  pub smtp_security : Text
  pub reply_to_field : Text
  pub cap_verify_url : Text
  pub cap_site_key : Text
  pub cap_secret_key : Text
  pub success_redirect_url : Text
  pub error_redirect_url : Text
  pub allowed_origins : Text
  pub max_payload_kb : Text
  pub rate_limit_requests : Text
  pub rate_limit_window_seconds : Text
  pub cap_enabled : Bool
  pub rate_limit_enabled : Bool
  pub is_active : Bool

-- The entries of `values` that the handlers read. A number that is refused is 0 here.
pub record EndpointValues : Type 0 where
  pub name : Text
  pub slug : Text
  pub recipient_emails : List Text
  pub sender_email : Text
  pub smtp_host : Text
  pub smtp_port : ℕ
  pub smtp_username : Text
  pub smtp_security : Text
  pub reply_to_field : Text
  pub cap_verify_url : Option Text
  pub cap_site_key : Text
  pub success_redirect_url : Option Text
  pub error_redirect_url : Option Text
  pub normalized_origins : List Text
  pub max_payload_kb : ℕ
  pub rate_limit_requests : ℕ
  pub rate_limit_window_seconds : ℕ

-- `errors`, a dict: the fields in the order in which they were set first.
abbrev pub Errors : Type 0
Errors = List (Text × Text)

unfoldable pub set_error : Text → Text → Errors → Errors
set_error field message [] = (field, message) ∷ []
set_error field message ((f, m) ∷ errors) =
    let rest = set_error field message errors in
    if f == field then (f, message) ∷ errors else (f, m) ∷ rest

abbrev pub error_when : Bool → Text → Text → Errors → Errors
error_when test field message errors = if test then set_error field message errors else errors

abbrev is_slug_char : ℕ → Bool
is_slug_char c = is_alphanumeric c

-- `SLUG_PATTERN.fullmatch`: parts of lower-case letters and digits, joined by single hyphens.
unfoldable pub is_slug : Text → Bool
is_slug slug = all (λ part. truthy part && all is_slug_char part) (split_char b'-' slug)

abbrev is_letter : ℕ → Bool
is_letter c = leb b'A' c && leb c b'Z' || leb b'a' c && leb c b'z'

abbrev is_field_char : ℕ → Bool
is_field_char c = is_letter c || leb b'0' c && leb c b'9' || c == b'_' || c == b'.' || c == b'-'

-- `FIELD_PATTERN.fullmatch`.
unfoldable pub is_field_name : Text → Bool
is_field_name [] = false
is_field_name (c ∷ cs) = (is_letter c || c == b'_') && all is_field_char cs && leb (length cs) 149

-- `list(dict.fromkeys(values))`, on the values so far.
unfoldable pub dedupe : List Text → List Text → List Text
dedupe result [] = result
dedupe result (value ∷ values) =
    dedupe (if contains value result then result else result ++ value ∷ []) values

-- An integer between the bounds, 0 where the text is none.
abbrev pub in_range : ℕ → ℕ → ParsedInt → Option ℕ
in_range low high value_error = none
in_range low high negative = none
in_range low high (natural n) = if leb low n && leb n high then some n else none

abbrev pub number_or_zero : Option ℕ → ℕ
number_or_zero none = 0
number_or_zero (some n) = n

abbrev pub port_out_of_range : Option ℕ → Bool
port_out_of_range none = false
port_out_of_range (some port) = not (leb 1 port && leb port 65535)

abbrev last_part : Text → Text
last_part path = elim (split_last b'/' path) [ none ↦ path | some (before, after) ↦ after ]

-- `meaningful_path.rsplit("/", 1)[-1].lower() == "siteverify"`.
abbrev pub ends_in_siteverify : Unicode → Text → Bool
ends_in_siteverify u path =
    let meaningful_path = rstrip_char b'/' path in
    truthy meaningful_path && u.lower (last_part meaningful_path) == lit "siteverify"

module _ (u : Unicode) (net : NetworkLibrary) (lib : OriginLibrary) where
  abbrev normalized_url : Text → SplitUrl → Text → Text
  normalized_url scheme parsed host =
      lib.urlunsplit scheme (host ++ port_suffix scheme parsed.port) parsed.path parsed.query

  abbrev check_host : Text → Text → Errors → Bool → SplitUrl → Result Text → Option Text × Errors
  check_host value field errors cap_siteverify parsed (err message) =
      (some value, set_error field (lit "URL hostname is invalid: " ++ message) errors)
  check_host value field errors cap_siteverify parsed (ok host) =
      if port_out_of_range parsed.port
      then (some value, set_error field (lit "URL port must be between 1 and 65535.") errors)
      else (
        some (normalized_url (u.lower parsed.scheme) parsed host),
        error_when (cap_siteverify && not (ends_in_siteverify u parsed.path)) field
            (lit
              "Use the full CAP siteverify endpoint, for example https://cap.example.com/siteverify.")
            errors,
      )

  abbrev pub is_not_http : SplitUrl → Bool
  is_not_http parsed =
      not (u.lower parsed.scheme == lit "http" || u.lower parsed.scheme == lit "https")
      || not (truthy parsed.netloc)
      || not (truthy_option parsed.hostname)

  abbrev pub has_credentials : SplitUrl → Bool
  has_credentials parsed = is_some parsed.username || is_some parsed.password

  unfoldable pub check_url : Text → Text → Errors → Bool → SplitUrl → Option Text × Errors
  check_url value field errors cap_siteverify parsed =
      if is_not_http parsed
      then (some value, set_error field (lit "Enter a full absolute HTTP or HTTPS URL.") errors)
      else if has_credentials parsed
      then (some value, set_error field (lit "URL credentials are not allowed.") errors)
      else if truthy parsed.fragment
      then (some value, set_error field (lit "URL fragments are not supported.") errors)
      else check_host value field errors cap_siteverify parsed
          (host_for_url u net (or_empty parsed.hostname))

  abbrev split_url : Text → Text → Errors → Bool → Option SplitUrl → Option Text × Errors
  split_url value field errors cap_siteverify none = (
    some value,
    set_error field (lit "Enter a valid absolute HTTP or HTTPS URL with a valid port.") errors,
  )
  split_url value field errors cap_siteverify (some parsed) =
      check_url value field errors cap_siteverify parsed

  abbrev pub is_unsafe_url : Text → Text → Bool
  is_unsafe_url original value = not (original == value) || contains_unsafe_text u net value

  unfoldable pub validate_http_url : Text → Text → Errors → Bool → Option Text × Errors
  validate_http_url original field errors cap_siteverify =
      let value = strip u original in
      if not (truthy value)
      then (none, errors)
      else if is_unsafe_url original value
      then (
        some original,
        set_error field (lit "URL must not contain whitespace or control characters.") errors,
      )
      else split_url value field errors cap_siteverify (lib.urlsplit value)

  -- `[line.strip() for line in text.splitlines() if line.strip()]`.
  abbrev pub stripped_lines : Text → List Text
  stripped_lines text = select truthy (map (strip u) (splitlines text))

  abbrev pub host_or : Text → Result Text → Text
  host_or original (ok host) = host
  host_or original (err message) = original

  abbrev pub host_error : Result Text → Errors → Errors
  host_error (ok host) errors = errors
  host_error (err message) errors =
      set_error (lit "smtp_host")
        (lit "Enter a valid bare SMTP hostname or IP address: " ++ message) errors

  abbrev pub origins_or_none : Result (List Text) → List Text
  origins_or_none (ok origins) = origins
  origins_or_none (err message) = []

  abbrev pub origins_error : Result (List Text) → Errors → Errors
  origins_error (ok origins) errors = errors
  origins_error (err message) errors = set_error (lit "allowed_origins") message errors

  abbrev pub recipients_error : List Text → Errors → Errors
  recipients_error recipients errors =
      if is_empty recipients
      then set_error (lit "recipients") (lit "At least one recipient email is required.") errors
      else error_when (any (λ email. not (is_email u net email)) recipients) (lit "recipients")
          (lit "Every recipient must be a valid email address, one per line.") errors
