-- ===== src/Network.antt =====
-- app/core/network_validation.py, and `is_email` of app/core/endpoint_validation.py: host names and
-- addresses of mail. The `ipaddress` library, IDNA and `parseaddr` are parameters.
use billsons_forms.Base.{
  Bool, Option, Text, [], all, any, contains, drop, false, if◌then◌else◌, leb, length, lit, ltb,
  nat_eq, none, not, some, take, text_eq, ℕ, ◌&&◌, ◌++◌, ◌-◌, ◌==◌, ◌||◌, ◌∷◌,
}
use billsons_forms.Strings.{
  Unicode, contains_text, ends_with, split_char, split_last, starts_with, strip, truthy,
}

-- A value, or the message of the exception that is raised.
pub data Result {ℓ} (A : Type ℓ) : Type ℓ where
  ok : A → Result A
  err : Text → Result A

pub record NetworkLibrary : Type 0 where
  -- `ipaddress.ip_address(text).compressed`, `none` for its ValueError.
  pub ip_compressed : Text → Option Text
  -- `text.encode("idna").decode("ascii")`, `none` for a UnicodeError.
  pub idna : Text → Option Text
  -- `str.isdigit` of a character.
  pub is_digit : ℕ → Bool
  -- `email.utils.parseaddr`: the display name and the address.
  pub parseaddr : Text → Text × Text

-- `[a-z0-9]`.
abbrev pub is_alphanumeric : ℕ → Bool
is_alphanumeric c = leb b'a' c && leb c b'z' || leb b'0' c && leb c b'9'

abbrev pub is_label_char : ℕ → Bool
is_label_char c = is_alphanumeric c || c == b'-'

abbrev last_of : ℕ → Text → ℕ
last_of c [] = c
last_of c (x ∷ xs) = last_of x xs

-- `_DNS_LABEL.fullmatch(label)`.
unfoldable pub is_dns_label : Text → Bool
is_dns_label [] = false
is_dns_label (c ∷ cs) =
    is_alphanumeric c
    && all is_label_char cs
    && is_alphanumeric (last_of c cs)
    && leb (length cs) 62

module _ (u : Unicode) (lib : NetworkLibrary) where
  unfoldable pub contains_unsafe_text : Text → Bool
  contains_unsafe_text value = any (λ c. u.is_space c || u.is_other c) value

  abbrev bracketed : Text → Bool
  bracketed value = starts_with value (lit "[") && ends_with value (lit "]")

  abbrev half_bracketed : Text → Bool
  half_bracketed value =
      (starts_with value (lit "[") || ends_with value (lit "]")) && not (bracketed value)

  -- `candidate[1:-1]`, where there are brackets.
  abbrev unbracketed : Text → Text
  unbracketed value = if bracketed value then take (length value - 2) (drop 1 value) else value

  abbrev has_url_syntax : Text → Bool
  has_url_syntax candidate =
      contains_text candidate (lit "://")
      || contains b'@' candidate
      || contains b'/' candidate
      || contains b'?' candidate
      || contains b'#' candidate
      || contains b'\\' candidate

  abbrev looks_like_ip : Text → Bool
  looks_like_ip candidate =
      contains b':' candidate
      || contains b'.' candidate && all (λ c. lib.is_digit c || c == b'.') candidate

  -- The host in ASCII, and the tests of its labels.
  unfoldable pub dns_host : Text → Result Text
  dns_host ascii_host =
      if ltb 253 (length ascii_host)
      then err (lit "Hostname exceeds 253 characters.")
      else if any (λ label. not (truthy label)) (split_char b'.' ascii_host)
      then err (lit "Hostname contains an empty DNS label.")
      else if any (λ label. ltb 63 (length label)) (split_char b'.' ascii_host)
      then err (lit "Hostname contains a DNS label longer than 63 characters.")
      else if any (λ label. not (is_dns_label label)) (split_char b'.' ascii_host)
      then err (lit "DNS labels may contain only letters, digits and internal hyphens.")
      else ok ascii_host

  abbrev ip_host : Text → Result Text
  ip_host candidate = elim (lib.ip_compressed candidate) [
    | none ↦ err (lit "IP address is malformed.")
    | some address ↦ ok (u.lower address)
  ]

  abbrev name_host : Text → Result Text
  name_host candidate = elim (lib.idna candidate) [
    | none ↦ err (lit "Hostname cannot be converted safely with IDNA.")
    | some host ↦ dns_host (u.lower host)
  ]

  unfoldable pub normalize_hostname : Text → Result Text
  normalize_hostname value =
      let candidate = unbracketed value in
      if not (truthy value) || not (value == strip u value) || contains_unsafe_text value
      then err (lit "Host must not be empty or contain whitespace/control characters.")
      else if half_bracketed value
      then err (lit "IP address brackets are malformed.")
      else if not (truthy candidate)
      then err (lit "Host must not be empty.")
      else if has_url_syntax candidate
      then err (lit "Expected a bare hostname or IP address without scheme, credentials or path.")
      else if looks_like_ip candidate
      then ip_host candidate
      else name_host candidate

  -- `f"[{normalized}]" if ":" in normalized else normalized`.
  unfoldable pub host_for_url : Text → Result Text
  host_for_url host = elim (normalize_hostname host) [
    | err message ↦ err message
    | ok normalized ↦
        ok (if contains b':' normalized then lit "[" ++ normalized ++ lit "]" else normalized)
  ]

  abbrev domain_has_dot : Text → Bool
  domain_has_dot value = elim (split_last b'@' value) [
    | none ↦ false
    | some (local, domain) ↦ contains b'.' domain
  ]

  unfoldable pub is_email : Text → Bool
  is_email value =
      let (display, parsed) = lib.parseaddr value in
      not (truthy display)
      && parsed == value
      && leb (length value) 254
      && contains b'@' value
      && domain_has_dot value
