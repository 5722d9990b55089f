-- ===== src/Validation/Laws.antt =====
-- What a configuration without errors satisfies.
use billsons_forms.Base.{
  All, All-append, Bool, Bool-cases, List, Option, Text, [], arith, contains, false, if◌then◌else◌,
  inl, inr, lit, nat_eq, none, not, refl, some, text_eq, true, ◌&&◌, ◌++◌, ◌==◌, ◌∷◌, ◌≡◌, ◌≢◌,
}
use billsons_forms.Strings.{Unicode, or_empty, strip, truthy}
use billsons_forms.Network.{NetworkLibrary, Result, err, host_for_url, ok}
use billsons_forms.Origins.{OriginLibrary, SplitUrl}
use billsons_forms.Snapshot.Laws.{AllDistinct}
use billsons_forms.Origins.Laws.{append-AllDistinct}
use billsons_forms.Validation.{
  check_host, split_url, Errors, check_url, dedupe, ends_in_siteverify, error_when, has_credentials,
  is_not_http, is_unsafe_url, port_out_of_range, set_error, validate_http_url,
}

pub set_error-filled :
    (field message : Text) (errors : Errors) → set_error field message errors ≢ []
unfolding set_error
set_error-filled field message [] e = cc
set_error-filled field message ((f, m) ∷ errors) e = elim (Bool-cases (f == field)) [
  | inl same ↦ ground (arith, e, same)
  | inr other ↦ ground (arith, e, other)
]

-- A check that leaves no error has passed, and none before it failed.
pub error_when-none :
    (test : Bool) (field message : Text) (errors : Errors)
    → error_when test field message errors ≡ []
    → (test ≡ false) × (errors ≡ [])
error_when-none true field message errors e = absurd (set_error-filled field message errors e)
error_when-none false field message errors e = (refl, e)

-- The errors after a check of a URL are none only where they were none before.
pub record NoNewErrors (errors : Errors) (answer : Option Text × Errors) : Type 0 where
  pub none_before : answer.1 ≡ [] → errors ≡ []

refused_url :
    (errors : Errors) (value : Option Text) (field message : Text)
    → NoNewErrors errors (value, set_error field message errors)
refused_url errors value field message = record {
  none_before = λ e. absurd (set_error-filled field message errors e);
}

guarded_url :
    (errors : Errors) (test : Bool) (yes_ no_ : Option Text × Errors)
    → NoNewErrors errors yes_
    → NoNewErrors errors no_
    → NoNewErrors errors (if test then yes_ else no_)
guarded_url errors true yes_ no_ h k = h
guarded_url errors false yes_ no_ h k = k

module _ (u : Unicode) (net : NetworkLibrary) (lib : OriginLibrary) (cap_siteverify : Bool) where
  -- A full HTTP or HTTPS URL, without credentials and fragment, whose host is normal and whose port
  -- is in range; that of a CAP service ends in siteverify.
  pub record IsHttpUrl (original : Text) : Type 0 where
    pub safe : is_unsafe_url u net lib original (strip u original) ≡ false
    pub parsed : SplitUrl
    pub splits : lib.urlsplit (strip u original) ≡ some parsed
    pub http : is_not_http u net lib parsed ≡ false
    pub no_credentials : has_credentials u net lib parsed ≡ false
    pub no_fragment : truthy parsed.fragment ≡ false
    pub host : Text
    pub named : host_for_url u net (or_empty parsed.hostname) ≡ ok host
    pub port_valid : port_out_of_range parsed.port ≡ false
    pub siteverify : cap_siteverify ≡ true → ends_in_siteverify u parsed.path ≡ true

module _ (u : Unicode) (net : NetworkLibrary) (lib : OriginLibrary) (field : Text) (errors : Errors)
    (cap_siteverify : Bool) where
  check_host-NoNewErrors :
      (value : Text) (parsed : SplitUrl) (host : Result Text)
      → NoNewErrors errors (check_host u net lib value field errors cap_siteverify parsed host)
  check_host-NoNewErrors value parsed (err message) = refused_url errors _ field _
  check_host-NoNewErrors value parsed (ok host) =
      guarded_url errors (port_out_of_range parsed.port) _ _
        (refused_url errors (some value) field _)
        (record { none_before = λ e. (error_when-none _ field _ errors e).1 })

  check_url-NoNewErrors :
      (value : Text) (parsed : SplitUrl)
      → NoNewErrors errors (check_url u net lib value field errors cap_siteverify parsed)
  unfolding check_url
  check_url-NoNewErrors value parsed =
      guarded_url errors (is_not_http u net lib parsed) _ _
        (refused_url errors (some value) field _)
        (guarded_url errors (has_credentials u net lib parsed) _ _
          (refused_url errors (some value) field _)
          (guarded_url errors (truthy parsed.fragment) _ _ (refused_url errors (some value) field _)
            (check_host-NoNewErrors value parsed (host_for_url u net (or_empty parsed.hostname)))))

  pub validate_http_url-NoNewErrors :
      (original : Text)
      → NoNewErrors errors (validate_http_url u net lib original field errors cap_siteverify)
  unfolding validate_http_url
  validate_http_url-NoNewErrors original =
      guarded_url errors (not (truthy (strip u original))) _ _ (record { none_before = λ e. e })
        (guarded_url errors (is_unsafe_url u net lib original (strip u original)) _ _
          (refused_url errors (some original) field _) (split (lib.urlsplit (strip u original))))
    where
      split :
          (parsed : Option SplitUrl)
          → NoNewErrors errors
              (split_url u net lib (strip u original) field errors cap_siteverify parsed)
      split none = refused_url errors _ field _
      split (some parsed) = check_url-NoNewErrors (strip u original) parsed

  passed_guard :
      (test : Bool) (value : Option Text) (message : Text) (rest : Option Text × Errors)
      → (if test then (value, set_error field message errors) else rest).1 ≡ []
      → (test ≡ false) × (rest.1 ≡ [])
  passed_guard true value message rest e = absurd (set_error-filled field message errors e)
  passed_guard false value message rest e = (refl, e)

  passed_host :
      (value : Text) (parsed : SplitUrl) (host : Result Text)
      → (check_host u net lib value field errors cap_siteverify parsed host).1 ≡ []
      → (name : Text) × (host ≡ ok name)
        × (port_out_of_range parsed.port ≡ false)
        × (cap_siteverify ≡ true → ends_in_siteverify u parsed.path ≡ true)
  passed_host value parsed (err message) e = absurd (set_error-filled field _ errors e)
  passed_host value parsed (ok host) e =
      let (port, e1) = passed_guard (port_out_of_range parsed.port) _ _ _ e in
      let (path, e2) =
        error_when-none (cap_siteverify && not (ends_in_siteverify u parsed.path)) field _ errors
          e1 in
      (host, refl, port, λ cap. ground (arith, path, cap))

  passed_split :
      (original : Text) (split : Option SplitUrl)
      → lib.urlsplit (strip u original) ≡ split
      → is_unsafe_url u net lib original (strip u original) ≡ false
      → (split_url u net lib (strip u original) field errors cap_siteverify split).1 ≡ []
      → IsHttpUrl u net lib cap_siteverify original
  unfolding check_url
  passed_split original none same safe e = absurd (set_error-filled field _ errors e)
  passed_split original (some parsed) same safe e =
      let (http, e1) = passed_guard (is_not_http u net lib parsed) _ _ _ e in
      let (credentials, e2) = passed_guard (has_credentials u net lib parsed) _ _ _ e1 in
      let (fragment, e3) = passed_guard (truthy parsed.fragment) _ _ _ e2 in
      let (host, named, port, path) = passed_host (strip u original) parsed _ e3 in
      record {
        safe = safe;
        parsed = parsed;
        splits = same;
        http = http;
        no_credentials = credentials;
        no_fragment = fragment;
        host = host;
        named = named;
        port_valid = port;
        siteverify = path;
      }

  pub validate_http_url-IsHttpUrl :
      (original : Text)
      → (validate_http_url u net lib original field errors cap_siteverify).1 ≡ []
      → truthy (strip u original) ≡ true
      → IsHttpUrl u net lib cap_siteverify original
  unfolding validate_http_url
  validate_http_url-IsHttpUrl original e given =
      let e0 : (if is_unsafe_url u net lib original (strip u original)
            then (
              some original,
              set_error field (lit "URL must not contain whitespace or control characters.") errors,
            )
            else split_url u net lib (strip u original) field errors cap_siteverify
                (lib.urlsplit (strip u original))).1
          ≡ [] =
        rw given at e in
      let (safe, e1) =
        passed_guard (is_unsafe_url u net lib original (strip u original)) _ _ _ e0 in
      passed_split original (lib.urlsplit (strip u original)) refl safe e1

pub dedupe-AllDistinct :
    (result values : List Text) → AllDistinct result → AllDistinct (dedupe result values)
unfolding dedupe
dedupe-AllDistinct result [] d = d
dedupe-AllDistinct result (value ∷ values) d = elim (Bool-cases (contains value result)) [
  | inl seen ↦ rw seen (dedupe-AllDistinct result values d)
  | inr fresh ↦
      rw fresh
        (dedupe-AllDistinct (result ++ value ∷ []) values (append-AllDistinct result value fresh d))
]

-- Every value of the deduplicated list was there, or is in the list so far.
pub dedupe-All :
    (P : Text → Type 0) (result values : List Text)
    → All P result
    → All P values
    → All P (dedupe result values)
unfolding dedupe
dedupe-All P result [] h k = h
dedupe-All P result (value ∷ values) h k = elim (Bool-cases (contains value result)) [
  | inl seen ↦ rw seen (dedupe-All P result values h k.1)
  | inr fresh ↦ rw fresh (
      dedupe-All P (result ++ value ∷ []) values (All-append P result (value ∷ []) h (k.0, tt)) k.1)
]

pub dedupe-filled : (result values : List Text) → result ≢ [] → dedupe result values ≢ []
unfolding dedupe
dedupe-filled result [] h = h
dedupe-filled result (value ∷ values) h = elim (Bool-cases (contains value result)) [
  | inl seen ↦ rw seen (dedupe-filled result values h)
  | inr fresh ↦ rw fresh (dedupe-filled (result ++ value ∷ []) values (append_filled result value))
]
  where
    append_filled : (xs : List Text) (y : Text) → xs ++ y ∷ [] ≢ []
    append_filled [] y e = cc
    append_filled (x ∷ xs) y e = cc
