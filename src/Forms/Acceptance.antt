-- ===== src/Forms/Acceptance.antt =====
-- What an accepted submission has passed, and what it leaves behind.
use billsons_forms.Base.{
  List, Option, Text, [], false, is_empty, lit, some, true, ℕ, ◌++◌, ◌∷◌, ◌≡◌,
}
use billsons_forms.Models.{Database, EndpointDeliveryLog, FormEndpoint}
use billsons_forms.Http.{Request}
use billsons_forms.Payloads.{parse_submission_payload, payload}
use billsons_forms.Snapshot.{
  DeliverySnapshot, create_delivery_snapshot, decrypt_value, enqueue_delivery,
}
use billsons_forms.Cap.Laws.{IsVerified}
use billsons_forms.Forms.{
  ApiResponse, FormsPlatform, answer, fits_log, origin_allowed, reply_of, reply_to,
}
use billsons_forms.Forms.Stages.{
  active_recipients, cap_result, count_submission, max_bytes, snapshot_fields,
}

module _ (p : FormsPlatform) (e : FormEndpoint) (request : Request) (now later : ℕ) (nonce : Text)
    (chunks : List Text) (db : Database) where
  -- The endpoint is active, the origin allowed and the limit kept; the payload can be read, its CAP
  -- token is confirmed where the endpoint wants one, and its reply address is valid; the endpoint has
  -- an active recipient and a password that decrypts; the snapshot of all this is valid, and the headers
  -- fit the columns of the log.
  pub record IsAdmissible : Type 0 where
    pub active : e.is_active ≡ true
    pub allowed : origin_allowed p e request ≡ true
    pub within_limit :
        e.rate_limit_enabled ≡ true
        → (count_submission p e request now later nonce chunks db).0.allowed ≡ true
    pub fields : List (Text × p.Value)
    pub size : ℕ
    pub parsed :
        parse_submission_payload p.platform.unicode p.payloads request chunks
          (max_bytes p e request now later nonce chunks)
        ≡ payload fields size
    pub cap_confirmed :
        e.cap_enabled ≡ true
        → (secret : Option Text) × (decrypt_value p.platform.unicode p.network p.codec
              e.cap_secret_key
            ≡ some secret)
          × IsVerified (cap_result p e request now later nonce chunks fields secret)
    pub some_recipient : is_empty (active_recipients p e request db) ≡ false
    pub address : Option Text
    pub replied : reply_of p e fields ≡ reply_to address
    pub password : Option Text
    pub decrypted :
        decrypt_value p.platform.unicode p.network p.codec e.smtp_password ≡ some password
    pub snapshot : DeliverySnapshot p.Value
    pub created :
        create_delivery_snapshot p.platform.unicode p.network p.codec
          (snapshot_fields p e request fields (active_recipients p e request db) address password)
        ≡ some snapshot
    pub loggable : fits_log p e request ≡ true

  -- The submission has passed every gate, and its job was queued and logged.
  pub record IsAcceptance (result : Option ApiResponse × Database) : Type 0 where
    pub passed : IsAdmissible
    pub queued_once :
        result.1.jobs
        ≡ (enqueue_delivery p.platform.unicode p.network p.codec p.platform.settings db.jobs
            (some e.id)
            passed.snapshot
            nonce
            later).1
    pub logged_once :
        (row : EndpointDeliveryLog) × (result.1.logs.rows ≡ db.logs.rows ++ row ∷ [])
        × (row.success ≡ true)
        × (row.delivery_job_id ≡ some db.jobs.next_id)
    pub answered :
        result.0
        ≡ some (answer p e request true (lit "Form submission accepted for delivery.") 202 [])
