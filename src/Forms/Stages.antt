-- ===== src/Forms/Stages.antt =====
-- `submit_form` of app/api/forms.py, a function for each stretch of it that ends in a refusal. The
-- rows that the rate limiter counts stay when a later step fails, since it commits them itself.
use billsons_forms.Base.{
  Bool, List, Option, Text, [], false, if◌then◌else◌, is_empty, lit, map, min, none, not, or_else,
  select, some, true, ℕ, ◌*◌, ◌++◌, ◌∷◌,
}
use billsons_forms.Models.{Database, FormEndpoint, FormEndpointRecipient, RateLimitBucket, Table}
use billsons_forms.Strings.{decimal, join, or_empty}
use billsons_forms.Http.{Request}
use billsons_forms.Payloads.{parse_submission_payload, payload, payload_error, payload_raised}
use billsons_forms.Snapshot.{
  DeliverySnapshot, create_delivery_snapshot, decrypt_value, enqueue_delivery,
}
use billsons_forms.Cap.{CapResult, is_rejected, is_success, status_value, verify_cap_token}
use billsons_forms.RateLimit.{RateLimitResult, check_rate_limit, decision}
use billsons_forms.Auth.{ip_of}
use billsons_forms.Forms.{
  ApiResponse, Fields, FormsPlatform, LogEntry, Outcome, active_of, answer, bad_reply, delivery_log,
  fits_log, get_endpoint, json_content, no_entry, origin_allowed, refuse, reply_of, reply_to,
  token_of,
}

module _ (p : FormsPlatform) (e : FormEndpoint) (request : Request) where
  -- The arguments of `create_delivery_snapshot`.
  abbrev pub snapshot_fields :
      Fields p → List FormEndpointRecipient → Option Text → Option Text → DeliverySnapshot p.Value
  snapshot_fields fields recipients reply_to_email smtp_password = record {
    submitted_fields = fields;
    recipients = map (λ r. r.email) recipients;
    sender_email = e.sender_email;
    sender_name = e.sender_name;
    subject = e.email_subject;
    smtp_host = e.smtp_host;
    smtp_port = e.smtp_port;
    smtp_username = e.smtp_username;
    smtp_password = smtp_password;
    smtp_security = e.smtp_security;
    reply_to_email = reply_to_email;
  }

  abbrev pub active_recipients : Database → List FormEndpointRecipient
  active_recipients db = select (active_of e.id) db.recipients.rows

  module _ (now later : ℕ) (nonce : Text) (chunks : List Text) where
    -- The job, its log and the answer, committed together.
    unfoldable pub accept : Bool → ℕ → DeliverySnapshot p.Value → Database → Outcome p
    accept cap_verified size snapshot db =
        let (job, jobs) =
          enqueue_delivery p.platform.unicode p.network p.codec p.platform.settings db.jobs
            (some e.id) snapshot nonce later in
        let entry : LogEntry = record {
          success = true;
          cap_verified = cap_verified;
          payload_size = some size;
          error = none;
          job_id = some job.id;
          delivery_status = some (lit "queued");
          recipient_summary = some (join (lit ", ") snapshot.recipients);
          snapshot = some (snapshot.smtp_host, snapshot.smtp_port, snapshot.sender_email);
        } in
        (
          some (answer p e request true (lit "Form submission accepted for delivery.") 202 []),
          delivery_log p e request entry later (record db { jobs = jobs }),
        )

    -- The answer behind the rollback. PostgreSQL leaves a gap in the keys where the job was rolled back,
    -- which is left out here.
    abbrev pub not_queued : Database → Outcome p
    not_queued db =
        (some (answer p e request false (lit "Submission could not be queued.") 503 []), db)

    unfoldable pub queue_submission :
        Bool → Fields p → ℕ → List FormEndpointRecipient → Option Text → Database → Outcome p
    queue_submission cap_verified fields size recipients reply_to_email db =
        elim (decrypt_value p.platform.unicode p.network p.codec e.smtp_password) [
          | none ↦ not_queued db
          | some password ↦
              elim (create_delivery_snapshot p.platform.unicode p.network p.codec
                (snapshot_fields fields recipients reply_to_email password)) [
                  | none ↦ not_queued db
                  | some snapshot ↦
                      if fits_log p e request
                      then accept cap_verified size snapshot db
                      else not_queued db
                ]
        ]

    abbrev pub checked_entry : Bool → ℕ → Text → LogEntry
    checked_entry cap_verified size error = record no_entry {
      cap_verified = cap_verified;
      payload_size = some size;
      error = some error;
    }

    unfoldable pub address_submission : Bool → Fields p → ℕ → Database → Outcome p
    address_submission cap_verified fields size db =
        let recipients = active_recipients db in
        if is_empty recipients
        then refuse p e request
            (checked_entry cap_verified size (lit "No active recipients configured."))
            (lit "Endpoint is not configured for delivery.") 503 [] later db
        else elim (reply_of p e fields) [
          | bad_reply ↦
              refuse p e request
                (checked_entry cap_verified size
                  (lit "Reply-To field did not contain a valid email address."))
                (lit "The reply email field is invalid.") 400 [] later db
          | reply_to address ↦ queue_submission cap_verified fields size recipients address db
        ]

    abbrev pub cap_error : CapResult → Text
    cap_error result = lit "CAP " ++ status_value result.status ++ lit ": " ++ result.diagnostic

    abbrev pub cap_refusal : CapResult → ℕ → Database → Outcome p
    cap_refusal result size db =
        let entry = checked_entry false size (cap_error result) in
        if is_rejected result.status
        then refuse p e request entry (lit "CAP verification failed.") 403 [] later db
        else refuse p e request entry (lit "CAP verification is temporarily unavailable.") 503 []
            later db

    -- `verify_cap_token` with the endpoint's URL and its decrypted secret.
    abbrev pub cap_result : Fields p → Option Text → Option CapResult
    cap_result fields secret =
        verify_cap_token p.platform.unicode p.network p.origins p.cap_post
          (or_empty e.cap_verify_url) (or_empty secret) (token_of p fields)

    abbrev pub read_cap : Fields p → ℕ → Option CapResult → Database → Outcome p
    read_cap fields size none db = (none, db)
    read_cap fields size (some result) db =
        if is_success result.status
        then address_submission true fields size db
        else cap_refusal result size db

    unfoldable pub verify_submission : Fields p → ℕ → Database → Outcome p
    verify_submission fields size db =
        if e.cap_enabled
        then elim (decrypt_value p.platform.unicode p.network p.codec e.cap_secret_key) [
          | none ↦ (none, db)
          | some secret ↦ read_cap fields size (cap_result fields secret) db
        ]
        else address_submission false fields size db

    abbrev pub max_bytes : ℕ
    max_bytes = min e.max_payload_kb p.platform.settings.absolute_max_payload_kb * 1024

    unfoldable pub read_submission : Database → Outcome p
    read_submission db =
        elim (parse_submission_payload p.platform.unicode p.payloads request chunks max_bytes) [
          | payload_raised ↦ (none, db)
          | payload_error status_code detail ↦
              refuse p e request (record no_entry { error = some detail }) detail status_code []
                later db
          | payload fields size ↦ verify_submission fields size db
        ]

    abbrev pub identity : Text
    identity = or_else (ip_of p.platform request) (lit "unknown")

    abbrev pub count_submission : Database → RateLimitResult × Table RateLimitBucket
    count_submission db =
        check_rate_limit p.platform.digest db.buckets (lit "form:" ++ decimal e.id) identity
          e.rate_limit_requests e.rate_limit_window_seconds now

    abbrev pub limit_headers : RateLimitResult → List (Text × Text)
    limit_headers decision =
        (lit "Retry-After", decimal decision.retry_after)
        ∷ (lit "X-RateLimit-Limit", decimal decision.limit)
        ∷ (lit "X-RateLimit-Remaining", lit "0")
        ∷ []

    unfoldable pub limit_submission : Database → Outcome p
    limit_submission db =
        let (decision, buckets) = count_submission db in
        let db' = record db { buckets = buckets } in
        if not e.rate_limit_enabled
        then read_submission db
        else if not decision.allowed
        then refuse p e request
            (record no_entry { error = some (lit "Submission rate limit exceeded.") })
            (lit "Too many submissions. Try again later.") 429 (limit_headers decision) now db'
        else read_submission db'

    unfoldable pub submit_to : Database → Outcome p
    submit_to db =
        if not e.is_active
        then (some (answer p e request false (lit "Endpoint is disabled.") 403 []), db)
        else if not (origin_allowed p e request)
        then refuse p e request
            (record no_entry { error = some (lit "Origin missing, malformed or not allowed.") })
            (lit "Origin not allowed.") 403 [] now db
        else limit_submission db

module _ (p : FormsPlatform) where
  abbrev pub not_found : ApiResponse
  not_found = record {
    status_code = 404;
    content = json_content false (lit "Endpoint not found.");
    headers = [];
    allow_origin = none;
  }

  unfoldable pub submit_form : Database → Text → Request → ℕ → ℕ → Text → List Text → Outcome p
  submit_form db slug request now later nonce chunks = elim (get_endpoint db slug) [
    | none ↦ (some not_found, db)
    | some e ↦ submit_to p e request now later nonce chunks db
  ]
