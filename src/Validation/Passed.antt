-- ===== src/Validation/Passed.antt =====
-- What each of the checks gives where it leaves no error.
use billsons_forms.Base.{
  All, Bool, Bool-cases, List, Text, [], any, arith, false, inl, inr, is_none, lit, not, refl, true,
  ℕ, ◌&&◌, ◌||◌, ◌∷◌, ◌≡◌, ◌≢◌, ◌≤◌, ◌⊎◌,
}
use billsons_forms.Strings.{Unicode, strip, truthy, truthy_option}
use billsons_forms.Config.{Settings}
use billsons_forms.Integers.{ParsedInt, natural, negative, value_error}
use billsons_forms.Network.{NetworkLibrary, Result, err, is_email, normalize_hostname, ok}
use billsons_forms.Origins.{OriginLibrary}
use billsons_forms.Snapshot.{is_security}
use billsons_forms.Snapshot.Laws.{any-All}
use billsons_forms.Validation.Checks.{
  cap_errors, cap_url, endpoint_values, first_errors, last_errors, validated_origins,
  validated_payload, validated_port, validated_requests, validated_slug, validated_window,
}
use billsons_forms.Validation.{
  EndpointValues, Errors, RawForm, error_when, host_error, host_or, in_range, is_field_name,
  is_slug, number_or_zero, origins_error, origins_or_none, recipients_error, stripped_lines,
}
use billsons_forms.Validation.Laws.{error_when-none, set_error-filled}

module _ (u : Unicode) (net : NetworkLibrary) (lib : OriginLibrary) (s : Settings) (raw : RawForm)
    (smtp_kept cap_kept : Bool) where
  host_error-none :
      (original : Text) (host : Result Text) (errors : Errors)
      → host_error u net lib host errors ≡ []
      → (host ≡ ok (host_or u net lib original host)) × (errors ≡ [])
  host_error-none original (ok host) errors h = (refl, h)
  host_error-none original (err message) errors h = absurd (set_error-filled _ _ errors h)

  origins_error-none :
      (origins : Result (List Text)) (errors : Errors)
      → origins_error u net lib origins errors ≡ []
      → (origins ≡ ok (origins_or_none u net lib origins)) × (errors ≡ [])
  origins_error-none (ok origins) errors h = (refl, h)
  origins_error-none (err message) errors h = absurd (set_error-filled _ _ errors h)

  pub in_range-bounds :
      (low high : ℕ) (parsed : ParsedInt)
      → is_none (in_range low high parsed) ≡ false
      → (low ≤ number_or_zero (in_range low high parsed))
        × (number_or_zero (in_range low high parsed) ≤ high)
  in_range-bounds low high value_error h = absurd (ground (arith, h))
  in_range-bounds low high negative h = absurd (ground (arith, h))
  in_range-bounds low high (natural n) h = ground (arith, h)

  recipients_error-none :
      (recipients : List Text) (errors : Errors)
      → recipients_error u net lib recipients errors ≡ []
      → (recipients ≢ []) × All (λ e. is_email u net e ≡ true) recipients × (errors ≡ [])
  recipients_error-none [] errors h = absurd (set_error-filled _ _ errors h)
  recipients_error-none (r ∷ rs) errors h =
      let (fine, none_before) =
        error_when-none (any (λ email. not (is_email u net email)) (r ∷ rs)) _ _ errors h in
      (λ e. cc, any-All (is_email u net) (r ∷ rs) fine, none_before)

  abbrev pub v : EndpointValues
  v = endpoint_values u net lib s raw smtp_kept cap_kept

  -- What the first checks give.
  pub record FirstPassed : Type 0 where
    pub security : is_security (strip u raw.smtp_security) ≡ true
    pub port : is_none (validated_port u net lib s raw smtp_kept cap_kept) ≡ false
    pub host :
        normalize_hostname u net raw.smtp_host
        ≡ ok (host_or u net lib raw.smtp_host (normalize_hostname u net raw.smtp_host))
    pub sender : is_email u net (strip u raw.sender_email) ≡ true
    pub filled : stripped_lines u net lib (strip u raw.recipients) ≢ []
    pub recipients :
        All (λ e. is_email u net e ≡ true) (stripped_lines u net lib (strip u raw.recipients))
    pub slug : is_slug (validated_slug u net lib s raw smtp_kept cap_kept) ≡ true
    pub name : truthy (strip u raw.name) ≡ true
    pub reply :
        truthy (strip u raw.reply_to_field) ≡ true
        → is_field_name (strip u raw.reply_to_field) ≡ true

  true_of : {b : Bool} → not b ≡ false → b ≡ true
  true_of {b} h = ground (arith, h)

  pub first_errors-none : first_errors u net lib s raw smtp_kept cap_kept ≡ [] → FirstPassed
  unfolding first_errors
  first_errors-none h =
      let (reply, h1) =
        error_when-none
          (truthy (strip u raw.reply_to_field) && not (is_field_name (strip u raw.reply_to_field)))
          _ _ _ h in
      let (security, h2) =
        error_when-none (not (is_security (strip u raw.smtp_security))) _ _ _ h1 in
      let (port, h3) =
        error_when-none (is_none (validated_port u net lib s raw smtp_kept cap_kept)) _ _ _ h2 in
      let (host, h4) =
        host_error-none raw.smtp_host (normalize_hostname u net raw.smtp_host) _ h3 in
      let (sender, h5) =
        error_when-none (not (is_email u net (strip u raw.sender_email))) _ _ _ h4 in
      let (filled, recipients, h6) =
        recipients_error-none (stripped_lines u net lib (strip u raw.recipients)) _ h5 in
      let (slug, h7) =
        error_when-none (not (is_slug (validated_slug u net lib s raw smtp_kept cap_kept))) _ _ _
          h6 in
      let (name, h8) = error_when-none (not (truthy (strip u raw.name))) _ _ _ h7 in
      record {
        security = true_of security;
        port = port;
        host = host;
        sender = true_of sender;
        filled = filled;
        recipients = recipients;
        slug = true_of slug;
        name = true_of name;
        reply = λ given. ground (arith, reply, given);
      }

  -- What the last checks give, and that none before them failed.
  pub record LastPassed (errors : Errors) : Type 0 where
    pub limits :
        (is_none (validated_requests u net lib s raw smtp_kept cap_kept)
          || is_none (validated_window u net lib s raw smtp_kept cap_kept))
        ≡ false
    pub secret :
        (not (truthy (strip u raw.smtp_password))
          && truthy (strip u raw.smtp_username)
          && not smtp_kept)
        ≡ false
    pub payload : is_none (validated_payload u net lib s raw smtp_kept cap_kept) ≡ false
    pub origins :
        validated_origins u net lib s raw smtp_kept cap_kept
        ≡ ok (origins_or_none u net lib (validated_origins u net lib s raw smtp_kept cap_kept))
    pub before : errors ≡ []

  pub last_errors-none :
      (errors : Errors)
      → last_errors u net lib s raw smtp_kept cap_kept errors ≡ []
      → LastPassed errors
  unfolding last_errors
  last_errors-none errors h =
      let (limits, h1) =
        error_when-none
          (is_none (validated_requests u net lib s raw smtp_kept cap_kept)
            || is_none (validated_window u net lib s raw smtp_kept cap_kept))
          _ _ _ h in
      let (secret, h2) =
        error_when-none
          (not (truthy (strip u raw.smtp_password))
            && truthy (strip u raw.smtp_username)
            && not smtp_kept)
          _ _ _ h1 in
      let (payload, h3) =
        error_when-none (is_none (validated_payload u net lib s raw smtp_kept cap_kept)) _ _ _ h2 in
      let (origins, h4) =
        origins_error-none (validated_origins u net lib s raw smtp_kept cap_kept) errors h3 in
      record { limits = limits; secret = secret; payload = payload; origins = origins; before = h4 }

  pub record CapPassed (errors : Errors) : Type 0 where
    pub complete :
        raw.cap_enabled ≡ true
        → (truthy_option v.cap_verify_url ≡ true)
          × (truthy v.cap_site_key ≡ true)
          × ((truthy (strip u raw.cap_secret_key) ≡ true) ⊎ (cap_kept ≡ true))
    pub before : errors ≡ []

  one_of : (a b : Bool) → (not a && not b) ≡ false → (a ≡ true) ⊎ (b ≡ true)
  one_of true b h = inl refl
  one_of false true h = inr refl
  one_of false false h = absurd (ground (arith, h))

  pub cap_errors-none :
      (errors : Errors)
      → cap_errors u net lib s raw smtp_kept cap_kept errors ≡ []
      → CapPassed errors
  unfolding cap_errors endpoint_values
  cap_errors-none errors h = elim (Bool-cases raw.cap_enabled) [
    | inr off ↦ record {
      complete = λ on. absurd (ground (arith, on, off));
      before = ground (arith, h, off);
    }
    | inl on ↦
        let h0 : error_when (not (truthy (strip u raw.cap_secret_key)) && not cap_kept)
              (lit "cap_secret_key") (lit "CAP secret key is required when CAP is enabled.")
              (error_when (not (truthy (strip u raw.cap_site_key))) (lit "cap_site_key")
                (lit "CAP site key is required when CAP is enabled.")
                (error_when (not (truthy_option (cap_url u net lib s raw smtp_kept cap_kept).0))
                  (lit "cap_verify_url")
                  (lit "The full CAP siteverify URL is required when CAP is enabled.") errors))
            ≡ [] =
          ground (arith, h, on) in
        let (secret, h1) = error_when-none _ _ _ _ h0 in
        let (key, h2) = error_when-none _ _ _ _ h1 in
        let (url, h3) = error_when-none _ _ _ _ h2 in
        record { complete = λ _. (true_of url, true_of key, one_of _ _ secret); before = h3 }
  ]
