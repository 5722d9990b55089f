-- ===== src/Worker/Laws.antt =====
-- What a round of a worker does to the job that it claims and to its delivery log.
use billsons_forms.Base.{
  Bool, In, In-of_update_where, List, Option, Text, [], ap, arith, changed, false, is_none, left,
  lit, none, refl, some, sym, true, update_where, ℕ, ◌++◌, ◌∙◌, ◌≡◌,
}
use billsons_forms.Models.{Database, EmailDeliveryJob, EndpointDeliveryLog, JobStatus}
use billsons_forms.Models.Tables.{IsTable}
use billsons_forms.Queue.{completed, fail_job, failure}
use billsons_forms.Queue.Cases.{Jobs, job_key}
use billsons_forms.Queue.Ownership.{Owns, not_owner_changes_nothing, owner_moves_on}
use billsons_forms.Email.{
  DeliveryError, permanent_email_error, temporary_email_error, unexpected_error,
}
use billsons_forms.Worker.{
  complete_delivery, fail_delivery, finish_delivery, logged_failure, of_job, status_text,
  update_delivery_log, with_delivery,
}

same_jobs :
    (db : Database) (job_id : ℕ) (worker_id : Text) (now : ℕ) (message log_error : Text)
    (retryable : Bool)
    → ¬ Owns db.jobs job_id worker_id
    → fail_delivery db job_id worker_id now message retryable log_error ≡ db
unfolding fail_delivery
same_jobs db job_id worker_id now message log_error retryable lost =
    ap (logged_failure job_id log_error db)
      (not_owner_changes_nothing db.jobs job_id worker_id now message retryable lost).2

-- A worker that has lost a job, to another worker or to its deletion, writes nothing about it,
-- neither to the job nor to the delivery log, however the delivery ended.
pub finish_delivery-lost :
    (db : Database) (job_id : ℕ) (worker_id : Text) (now : ℕ) (noticed : Bool)
    (outcome : Option DeliveryError)
    → ¬ Owns db.jobs job_id worker_id
    → finish_delivery db job_id worker_id now noticed outcome ≡ db
unfolding finish_delivery complete_delivery
finish_delivery-lost db job_id worker_id now true outcome lost = refl
finish_delivery-lost db job_id worker_id now false none lost =
    rw ((not_owner_changes_nothing db.jobs job_id worker_id now [] false lost).1) refl
finish_delivery-lost db job_id worker_id now false (some (permanent_email_error message)) lost =
    same_jobs db job_id worker_id now _ _ false lost
finish_delivery-lost db job_id worker_id now false (some (temporary_email_error message)) lost =
    same_jobs db job_id worker_id now _ _ true lost
finish_delivery-lost db job_id worker_id now false (some (unexpected_error name message)) lost =
    same_jobs db job_id worker_id now _ _ true lost

-- The job's row after a delivery, and what its log says.
abbrev pub outcome_row : ℕ → Option DeliveryError → EmailDeliveryJob → EmailDeliveryJob
outcome_row now none j = completed now j
outcome_row now (some (permanent_email_error message)) j =
    failure false now (lit "PermanentEmailError: " ++ message) j
outcome_row now (some (temporary_email_error message)) j =
    failure true now (lit "TemporaryEmailError: " ++ message) j
outcome_row now (some (unexpected_error name message)) j =
    failure true now (name ++ lit ": " ++ message) j

-- A log of the job says what the row says: success exactly where the mail was sent, and the row's
-- status.
pub record Tells (outcome : Option DeliveryError) (row : EmailDeliveryJob)
    (log : EndpointDeliveryLog) : Type 0 where
  pub success_iff_sent : log.success ≡ is_none outcome
  pub same_status : log.delivery_status ≡ some (status_text row.status)

told :
    (logs : List EndpointDeliveryLog) (job_id : ℕ) (success : Bool) (status : Text)
    (message : Option Text) (log : EndpointDeliveryLog)
    → In log (update_where (of_job job_id) (with_delivery success status message) logs)
    → of_job job_id log ≡ true
    → (log.success ≡ success) × (log.delivery_status ≡ some status)
told logs job_id success status message log i hit =
    elim (In-of_update_where (of_job job_id) (with_delivery success status message) logs i) [
      | changed a at selected e ↦ (
        sym (ap (λ (x : EndpointDeliveryLog). x.success) e),
        sym (ap (λ (x : EndpointDeliveryLog). x.delivery_status) e),
      )
      | left at miss ↦ absurd (ground (arith, hit, miss))
    ]

-- What the database holds after the outcome is written.
unfoldable pub Written : ℕ → Option DeliveryError → EmailDeliveryJob → Database → Type 0
Written job_id outcome row db =
    In row db.jobs.rows
    × ((log : EndpointDeliveryLog)
        → In log db.logs.rows
        → of_job job_id log ≡ true
        → Tells outcome row log)

logged-Written :
    (db : Database) (job_id : ℕ) (error : DeliveryError) (log_error : Text) (row : EmailDeliveryJob)
    (r : Option JobStatus × Jobs)
    → r.0 ≡ some row.status
    → In row r.1.rows
    → Written job_id (some error) row (logged_failure job_id log_error db r)
unfolding Written update_delivery_log
logged-Written db job_id error log_error row (none, jobs) e i = absurd (ground (arith, e))
logged-Written db job_id error log_error row (some status, jobs) e i = (
  i,
  λ log at hit.
      let (success, same) =
        told db.logs.rows job_id false (status_text status) (some log_error) log at hit in
      record {
        success_iff_sent = success;
        same_status = same ∙ ap (λ x. some (status_text x)) (some-injective e);
      },
)
  where
    some-injective : {x y : JobStatus} → some x ≡ some y → x ≡ y
    some-injective f = cc

fail_delivery-Written :
    (db : Database) (job_id : ℕ) (worker_id : Text) (now : ℕ) (error : DeliveryError)
    (message log_error : Text) (retryable : Bool)
    → IsTable job_key db.jobs
    → (o : Owns db.jobs job_id worker_id)
    → Written job_id
        (some error)
        (failure retryable now message o.0)
        (fail_delivery db job_id worker_id now message retryable log_error)
unfolding fail_delivery
fail_delivery-Written db job_id worker_id now error message log_error retryable h o =
    let moved = owner_moves_on db.jobs job_id worker_id now message retryable h o in
    logged-Written db job_id error log_error (failure retryable now message o.0)
      (fail_job db.jobs job_id worker_id now message retryable) moved.4 moved.5

complete_delivery-Written :
    (db : Database) (job_id : ℕ) (worker_id : Text) (now : ℕ)
    → IsTable job_key db.jobs
    → (o : Owns db.jobs job_id worker_id)
    → Written job_id none (completed now o.0) (complete_delivery db job_id worker_id now)
unfolding Written complete_delivery update_delivery_log
complete_delivery-Written db job_id worker_id now h o =
    let moved = owner_moves_on db.jobs job_id worker_id now [] false h o in
    rw (moved.2) (
      moved.3,
      λ log at hit.
          let (success, same) = told db.logs.rows job_id true (lit "delivered") none log at hit in
          record { success_iff_sent = success; same_status = same },
    )

-- A worker that still holds a job writes the outcome to both tables: the row becomes the delivered,
-- queued or failed one that the outcome calls for, and every delivery log of the job tells the same.
pub finish_delivery-owner :
    (db : Database) (job_id : ℕ) (worker_id : Text) (now : ℕ) (outcome : Option DeliveryError)
    → IsTable job_key db.jobs
    → (o : Owns db.jobs job_id worker_id)
    → In
        (outcome_row now outcome o.0)
        (finish_delivery db job_id worker_id now false outcome).jobs.rows
      × ((log : EndpointDeliveryLog)
          → In log (finish_delivery db job_id worker_id now false outcome).logs.rows
          → of_job job_id log ≡ true
          → Tells outcome (outcome_row now outcome o.0) log)
unfolding finish_delivery Written
finish_delivery-owner db job_id worker_id now none h o =
    complete_delivery-Written db job_id worker_id now h o
finish_delivery-owner db job_id worker_id now (some (permanent_email_error message)) h o =
    fail_delivery-Written db job_id worker_id now _ _ _ false h o
finish_delivery-owner db job_id worker_id now (some (temporary_email_error message)) h o =
    fail_delivery-Written db job_id worker_id now _ _ _ true h o
finish_delivery-owner db job_id worker_id now (some (unexpected_error name message)) h o =
    fail_delivery-Written db job_id worker_id now _ _ _ true h o
