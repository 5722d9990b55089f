-- ===== src/Forms.antt =====
-- app/api/forms.py: the public API that forms are posted to. A handler gives its response, `none` for
-- an exception that is not caught, with the database as it is then committed. The body arrives between
-- two readings of the clock. The `Vary` header and the constant headers of a preflight are left out.
pub mod Stages
pub mod Refusals
pub mod Acceptance
pub mod Counted
pub mod Laws
pub mod Submission
pub mod Samples
pub mod Accepted
mod Examples
use billsons_forms.Base.{
  Bool, List, Option, Text, [], false, find, if◌then◌else◌, lit, ltb, nat_beq, nat_eq, none, not,
  or_else, some, text_beq, text_eq, ℕ, ◌&&◌, ◌==◌, ◌∷◌,
}
use billsons_forms.Models.{
  Database, EndpointDeliveryLog, FormEndpoint, FormEndpointRecipient, fits, insert,
}
use billsons_forms.Strings.{Unicode, or_empty, strip, truthy_option}
use billsons_forms.Http.{Request}
use billsons_forms.Network.{NetworkLibrary, is_email}
use billsons_forms.Origins.{
  OriginLibrary, Preflight, apply_cors, origin_is_allowed, origins_from_storage, preflight_response,
}
use billsons_forms.Payloads.{PayloadLibrary}
use billsons_forms.Snapshot.{Codec}
use billsons_forms.Cap.{CapPost}
use billsons_forms.RateLimit.{check_rate_limit}
use billsons_forms.Platform.{Platform}
use billsons_forms.Auth.{ip_of}

-- The libraries that the API uses beside the platform.
pub record FormsPlatform : Type 1 where
  pub platform : Platform
  pub network : NetworkLibrary
  pub origins : OriginLibrary
  pub Value : Type 0
  pub payloads : PayloadLibrary Value
  pub codec : Codec Value
  pub cap_post : CapPost

pub data Content : Type 0 where
  -- `JSONResponse({"success": …, "message": …})`.
  json_content : Bool → Text → Content
  redirect_content : Text → Content
  no_content : Content

pub record ApiResponse : Type 0 where
  pub status_code : ℕ
  pub content : Content
  pub headers : List (Text × Text)
  pub allow_origin : Option Text

-- What the caller of `delivery_log` gives, the defaults of the parameters in `no_entry`.
pub record LogEntry : Type 0 where
  pub success : Bool
  pub cap_verified : Bool
  pub payload_size : Option ℕ
  pub error : Option Text
  pub job_id : Option ℕ
  pub delivery_status : Option Text
  pub recipient_summary : Option Text
  -- The host, the port and the sender of the snapshot.
  pub snapshot : Option (Text × ℕ × Text)

abbrev pub no_entry : LogEntry
no_entry = record {
  success = false;
  cap_verified = false;
  payload_size = none;
  error = none;
  job_id = none;
  delivery_status = none;
  recipient_summary = none;
  snapshot = none;
}

-- The address to reply to, none asked for, or a field that is no address.
pub data ReplyTo : Type 0 where
  reply_to : Option Text → ReplyTo
  bad_reply : ReplyTo

abbrev pub live_slug : Text → FormEndpoint → Bool
live_slug slug e = e.slug == slug && not e.is_deleted

unfoldable pub get_endpoint : Database → Text → Option FormEndpoint
get_endpoint db slug = find (live_slug slug) db.endpoints.rows

-- `payload.get(key)`, where it is there and true.
unfoldable pub lookup : {Value : Type 0} → Text → List (Text × Value) → Option Value
lookup key [] = none
lookup key ((k, v) ∷ fields) = if k == key then some v else lookup key fields

abbrev pub active_of : ℕ → FormEndpointRecipient → Bool
active_of endpoint_id r = r.endpoint_id == endpoint_id && r.is_active

abbrev token_keys : List Text
token_keys =
    lit "cap-token"
    ∷ lit "cap_token"
    ∷ lit "cap_response"
    ∷ lit "cf-turnstile-response"
    ∷ lit "g-recaptcha-response"
    ∷ []

-- The first truthy value under one of the keys.
unfoldable pub first_truthy :
    {Value : Type 0} → (Value → Bool) → List Text → List (Text × Value) → Option Value
first_truthy is_truthy [] fields = none
first_truthy is_truthy (key ∷ keys) fields =
    let rest = first_truthy is_truthy keys fields in
    elim (lookup key fields) [
      | none ↦ rest
      | some value ↦ if is_truthy value then some value else rest
    ]

unfoldable pub endpoint_response :
    Unicode
    → NetworkLibrary
    → OriginLibrary
    → FormEndpoint
    → Bool
    → Text
    → ℕ
    → Option Text
    → List Text
    → List (Text × Text)
    → ApiResponse
endpoint_response u net lib e success message status_code origin allowed_origins headers =
    let cors = apply_cors u net lib origin allowed_origins in
    if success && truthy_option e.success_redirect_url
    then record {
      status_code = 303;
      content = redirect_content (or_empty e.success_redirect_url);
      headers = headers;
      allow_origin = cors;
    }
    else if not success && truthy_option e.error_redirect_url && ltb status_code 500
    then record {
      status_code = 303;
      content = redirect_content (or_empty e.error_redirect_url);
      headers = headers;
      allow_origin = cors;
    }
    else record {
      status_code = status_code;
      content = json_content success message;
      headers = headers;
      allow_origin = cors;
    }

module _ (p : FormsPlatform) where
  abbrev pub Outcome : Type 0
  Outcome = Option ApiResponse × Database

  abbrev pub Fields : Type 0
  Fields = List (Text × p.Value)

  abbrev pub reply_address : p.Value → ReplyTo
  reply_address value = elim (p.payloads.as_text value) [
    | none ↦ bad_reply
    | some text ↦
        let address = strip p.platform.unicode text in
        if is_email p.platform.unicode p.network address then reply_to (some address) else bad_reply
  ]

  -- The address that the payload asks to reply to.
  unfoldable pub reply_of : FormEndpoint → Fields → ReplyTo
  reply_of e fields =
      if not (truthy_option e.reply_to_field)
      then reply_to none
      else elim (first_truthy p.payloads.is_truthy (or_empty e.reply_to_field ∷ []) fields) [
        | none ↦ reply_to none
        | some value ↦ reply_address value
      ]

  unfoldable pub token_of : Fields → Text
  token_of fields = elim (first_truthy p.payloads.is_truthy token_keys fields) [
    | none ↦ []
    | some value ↦ p.payloads.show value
  ]

  unfoldable pub form_preflight : Database → Text → Request → Preflight
  form_preflight db slug request = elim (get_endpoint db slug) [
    | none ↦ record { status_code = 404; allow_origin = none }
    | some e ↦
        if not e.is_active
        then record { status_code = 404; allow_origin = none }
        else let allowed_origins =
            origins_from_storage p.platform.unicode p.network p.origins e.allowed_origins in
          let origin = request.header (lit "origin") in
          preflight_response p.platform.unicode p.network p.origins request allowed_origins (
            truthy_option origin
            && origin_is_allowed p.platform.unicode p.network p.origins origin allowed_origins)
  ]

  module _ (e : FormEndpoint) (request : Request) where
    abbrev pub stored : List Text
    stored = origins_from_storage p.platform.unicode p.network p.origins e.allowed_origins

    abbrev pub origin_allowed : Bool
    origin_allowed =
        origin_is_allowed p.platform.unicode p.network p.origins (request.header (lit "origin"))
          stored

    abbrev pub answer : Bool → Text → ℕ → List (Text × Text) → ApiResponse
    answer success message status_code headers =
        endpoint_response p.platform.unicode p.network p.origins e success message status_code
          (request.header (lit "origin")) stored headers

    abbrev pub new_log : LogEntry → ℕ → ℕ → EndpointDeliveryLog
    new_log entry now id =
        let (host, port, sender) =
          or_else entry.snapshot (e.smtp_host, e.smtp_port, e.sender_email) in
        record {
          id = id;
          endpoint_id = e.id;
          success = entry.success;
          ip_address = ip_of p.platform request;
          origin = request.header (lit "origin");
          user_agent = request.header (lit "user-agent");
          cap_verified = entry.cap_verified;
          smtp_host = some host;
          smtp_port = some port;
          sender_email = some sender;
          recipient_summary = entry.recipient_summary;
          payload_size_bytes = entry.payload_size;
          error_message = entry.error;
          delivery_job_id = entry.job_id;
          delivery_status = entry.delivery_status;
          created_at = now;
        }

    unfoldable pub delivery_log : LogEntry → ℕ → Database → Database
    delivery_log entry now db = record db { logs = insert (new_log entry now) db.logs }

    -- Whether the columns of the log take the headers of the request.
    abbrev pub fits_log : Bool
    fits_log =
        fits 500 (request.header (lit "origin")) && fits 500 (request.header (lit "user-agent"))

    -- The log, the commit and the answer of a refusal. A log that its columns do not take makes the
    -- commit raise.
    abbrev pub refuse : LogEntry → Text → ℕ → List (Text × Text) → ℕ → Database → Outcome
    refuse entry message status_code headers now db =
        if fits_log
        then (some (answer false message status_code headers), delivery_log entry now db)
        else (none, db)
