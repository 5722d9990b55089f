-- ===== src/Origins.antt =====
-- app/core/origins.py and app/core/cors.py: which origins may submit, and what a response allows.
-- `urlsplit` and JSON are parameters.
pub mod Laws
mod Examples
use billsons_forms.Base.{
  Bool, List, Option, Text, [], all, contains, false, if◌then◌else◌, is_empty, is_some, leb, lit,
  ltb, map, nat_beq, nat_eq, none, not, select, some, text_beq, text_eq, true, ℕ, ◌&&◌, ◌++◌, ◌==◌,
  ◌||◌, ◌∷◌,
}
use billsons_forms.Strings.{
  Unicode, decimal, join, or_empty, split_char, splitlines, strip, truthy, truthy_option,
}
use billsons_forms.Http.{Request}
use billsons_forms.Network.{NetworkLibrary, Result, contains_unsafe_text, err, host_for_url, ok}

pub record SplitUrl : Type 0 where
  pub scheme : Text
  pub netloc : Text
  pub hostname : Option Text
  pub username : Option Text
  pub password : Option Text
  pub port : Option ℕ
  pub path : Text
  pub query : Text
  pub fragment : Text

pub record OriginLibrary : Type 0 where
  -- `urlsplit` and the attribute `port`, `none` for a ValueError.
  pub urlsplit : Text → Option SplitUrl
  -- `json.loads`, where the result is a list, with `str` of its items.
  pub load_list : Text → Option (List Text)
  -- `json.dumps` of a list of texts.
  pub dump_list : List Text → Text
  -- `urlunsplit` with an empty fragment.
  pub urlunsplit : Text → Text → Text → Text → Text

-- The status of the answer to a preflight, and the origin that it allows.
pub record Preflight : Type 0 where
  pub status_code : ℕ
  pub allow_origin : Option Text

abbrev pub default_port : Text → ℕ → Bool
default_port scheme port =
    scheme == lit "http" && port == 80 || scheme == lit "https" && port == 443

abbrev pub port_suffix : Text → Option ℕ → Text
port_suffix scheme none = []
port_suffix scheme (some port) = if default_port scheme port then [] else lit ":" ++ decimal port

abbrev port_bad : Option ℕ → Bool
port_bad none = false
port_bad (some port) = not (leb 1 port && leb port 65535)

-- `<` of texts, by code points.
unfoldable pub text_ltb : Text → Text → Bool
text_ltb a [] = false
text_ltb [] (d ∷ b) = true
text_ltb (c ∷ a) (d ∷ b) = let rest = text_ltb a b in ltb c d || c == d && rest

-- A value added to a set that is kept in order.
unfoldable pub add_sorted : Text → List Text → List Text
add_sorted value [] = value ∷ []
add_sorted value (v ∷ values) =
    let rest = add_sorted value values in
    if value == v then v ∷ values else if text_ltb value v then value ∷ v ∷ values else v ∷ rest

unfoldable pub sorted_set : List Text → List Text
sorted_set [] = []
sorted_set (value ∷ values) = add_sorted value (sorted_set values)

-- `add_vary_origin`: the `Vary` header that it makes of the current one.
unfoldable pub add_vary_origin : Unicode → Text → Text
add_vary_origin u current =
    let values = map (strip u) (select (λ item. truthy (strip u item)) (split_char b',' current)) in
    join (lit ", ") (sorted_set (lit "Origin" ∷ values))

module _ (u : Unicode) (net : NetworkLibrary) (lib : OriginLibrary) where
  abbrev origin_of_host : SplitUrl → Text → Result Text → Result Text
  origin_of_host parsed scheme (err message) = err (lit "Origin hostname is invalid: " ++ message)
  origin_of_host parsed scheme (ok host) =
      if port_bad parsed.port
      then err (lit "Origin port must be between 1 and 65535.")
      else ok (scheme ++ lit "://" ++ host ++ port_suffix scheme parsed.port)

  unfoldable pub origin_of_url : SplitUrl → Result Text
  origin_of_url parsed =
      let scheme = u.lower parsed.scheme in
      if not (scheme == lit "http" || scheme == lit "https")
      then err (lit "Origin scheme must be http or https.")
      else if not (truthy_option parsed.hostname)
          || is_some parsed.username
          || is_some parsed.password
      then err (lit "Origin must contain a hostname and must not contain credentials.")
      else if truthy parsed.path || truthy parsed.query || truthy parsed.fragment
      then err (lit "Origin must not contain a path, query string or fragment.")
      else origin_of_host parsed scheme (host_for_url u net (or_empty parsed.hostname))

  abbrev split_origin : Option SplitUrl → Result Text
  split_origin none = err (lit "Origin has an invalid hostname or port.")
  split_origin (some parsed) = origin_of_url parsed

  unfoldable pub normalize_origin : Text → Result Text
  normalize_origin value =
      if not (truthy value) || not (value == strip u value) || contains_unsafe_text u net value
      then err (lit "Origin must not be empty or contain whitespace/control characters.")
      else if u.lower value == lit "null" || contains b'*' value
      then err
          (lit "Origin must be a bare HTTP or HTTPS origin; null and wildcards are not allowed.")
      else split_origin (lib.urlsplit value)

  -- The loop of `normalize_origins`, on the result so far, which is also the set of those seen.
  unfoldable pub normalize_all : List Text → List Text → Result (List Text)
  normalize_all result [] = ok result
  normalize_all result (value ∷ values) = elim (normalize_origin value) [
    | err message ↦ err message
    | ok normalized ↦
        normalize_all (if contains normalized result then result else result ++ normalized ∷ [])
          values
  ]

  abbrev pub normalize_origins : List Text → Result (List Text)
  normalize_origins values = normalize_all [] values

  unfoldable pub origins_from_text : Text → Result (List Text)
  origins_from_text value =
      normalize_origins (select (λ line. truthy (strip u line)) (splitlines value))

  abbrev or_no_origins : Result (List Text) → List Text
  or_no_origins (ok origins) = origins
  or_no_origins (err message) = []

  abbrev stored_origins : Option (List Text) → List Text
  stored_origins none = []
  stored_origins (some items) = or_no_origins (normalize_origins items)

  unfoldable pub origins_from_storage : Option Text → List Text
  origins_from_storage value =
      if not (truthy_option value) then [] else stored_origins (lib.load_list (or_empty value))

  -- `origins_to_storage`, `err` where an OriginError is raised.
  unfoldable pub origins_to_storage : List Text → Result (Option Text)
  origins_to_storage origins = elim (normalize_origins origins) [
    | err message ↦ err message
    | ok normalized ↦ ok (if is_empty normalized then none else some (lib.dump_list normalized))
  ]

  abbrev is_listed : List Text → Result Text → Bool
  is_listed allowed_origins (ok normalized) = contains normalized allowed_origins
  is_listed allowed_origins (err message) = false

  unfoldable pub origin_is_allowed : Option Text → List Text → Bool
  origin_is_allowed origin_header allowed_origins =
      if is_empty allowed_origins
      then true
      else if not (truthy_option origin_header)
      then false
      else is_listed allowed_origins (normalize_origin (or_empty origin_header))

  abbrev allow_header : List Text → Result Text → Option Text
  allow_header allowed_origins (err message) = none
  allow_header allowed_origins (ok normalized) =
      if is_empty allowed_origins || contains normalized allowed_origins
      then some normalized
      else none

  -- `apply_cors`: the `Access-Control-Allow-Origin` that it sets, if any.
  unfoldable pub apply_cors : Option Text → List Text → Option Text
  apply_cors origin allowed_origins =
      if truthy_option origin
      then allow_header allowed_origins (normalize_origin (or_empty origin))
      else none

  abbrev requested_headers : Request → List Text
  requested_headers request =
      map (λ item. u.lower (strip u item))
        (select (λ item. truthy (strip u item))
          (split_char b',' (or_empty (request.header (lit "access-control-request-headers")))))

  abbrev allowed_headers : List Text
  allowed_headers = lit "accept" ∷ lit "content-type" ∷ []

  unfoldable pub preflight_response : Request → List Text → Bool → Preflight
  preflight_response request allowed_origins allowed =
      let cors = apply_cors (request.header (lit "origin")) allowed_origins in
      if not allowed
      then record { status_code = 403; allow_origin = cors }
      else if not (
            u.upper (or_empty (request.header (lit "access-control-request-method"))) == lit "POST")
          || not (all (λ name. contains name allowed_headers) (requested_headers request))
      then record { status_code = 403; allow_origin = cors }
      else record { status_code = 204; allow_origin = cors }
