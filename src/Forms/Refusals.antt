-- ===== src/Forms/Refusals.antt =====
-- What a refused submission leaves behind.
use billsons_forms.Base.{
  Bool-cases, List, Option, Text, [], arith, false, inl, inr, ltb, none, refl, some, true, ℕ, ◌++◌,
  ◌∷◌, ◌≡◌, ◌⊎◌,
}
use billsons_forms.Models.{Database, EndpointDeliveryLog, FormEndpoint, RateLimitBucket, Table}
use billsons_forms.Strings.{or_empty, truthy_option}
use billsons_forms.Http.{Request}
use billsons_forms.Forms.{
  ApiResponse, Content, FormsPlatform, LogEntry, answer, delivery_log, endpoint_response, fits_log,
  json_content, new_log, no_content, redirect_content, refuse,
}

-- The content reports no success.
abbrev pub IsErrorContent : Option Text → Content → Type 0
IsErrorContent error_url (json_content succeeds message) = succeeds ≡ false
IsErrorContent error_url (redirect_content url) = error_url ≡ some url
IsErrorContent error_url no_content = ⊥

-- An exception is answered by the server, with status 500.
abbrev pub IsError : Option Text → Option ApiResponse → Type 0
IsError error_url none = Unit
IsError error_url (some answered) = IsErrorContent error_url answered.content

-- No job is queued, the answer is an error, and at most one log is written, of a failure.
pub record IsRefusal (error_url : Option Text) (db : Database)
    (result : Option ApiResponse × Database) : Type 0 where
  pub jobs_kept : result.1.jobs ≡ db.jobs
  pub logs_kept :
      (result.1.logs ≡ db.logs)
      ⊎ ((row : EndpointDeliveryLog) × (result.1.logs.rows ≡ db.logs.rows ++ row ∷ [])
          × (row.success ≡ false)
          × (row.delivery_job_id ≡ none))
  pub answer_error : IsError error_url result.0

pub or_empty-some : (text : Option Text) → truthy_option text ≡ true → text ≡ some (or_empty text)
or_empty-some none h = ground (arith, h)
or_empty-some (some text) h = refl

module _ (p : FormsPlatform) (e : FormEndpoint) (request : Request) where
  pub answer-IsError :
      (message : Text) (status_code : ℕ) (headers : List (Text × Text))
      → IsError e.error_redirect_url (some (answer p e request false message status_code headers))
  unfolding endpoint_response
  answer-IsError message status_code headers =
      elim (Bool-cases (truthy_option e.error_redirect_url)) [
        | inl given ↦ elim (Bool-cases (ltb status_code 500)) [
          | inl client ↦ ground (arith, or_empty-some e.error_redirect_url given)
          | inr server ↦ ground arith
        ]
        | inr missing ↦ ground arith
      ]

  pub refuse-IsRefusal :
      (entry : LogEntry) (message : Text) (status_code : ℕ) (headers : List (Text × Text)) (now : ℕ)
      (db : Database) (buckets : Table RateLimitBucket)
      → entry.success ≡ false
      → entry.job_id ≡ none
      → IsRefusal e.error_redirect_url db (
          refuse p e request entry message status_code headers now
            (record db { buckets = buckets }))
  unfolding delivery_log
  refuse-IsRefusal entry message status_code headers now db buckets fails jobless =
      elim (Bool-cases (fits_log p e request)) [
        | inl fit ↦ rw fit (record {
          jobs_kept = refl;
          logs_kept = inr (new_log p e request entry now db.logs.next_id, refl, fails, jobless);
          answer_error = answer-IsError message status_code headers;
        })
        | inr long ↦ rw long (record { jobs_kept = refl; logs_kept = inl refl; answer_error = tt })
      ]
