-- ===== src/Worker.antt =====
-- app/services/worker.py: the rounds of a worker, with everything that other sessions do to the
-- database in the meantime.
pub mod Laws
pub mod Rounds
mod Examples
use billsons_forms.Base.{
  Bool, List, Option, Text, [], false, holds, if◌then◌else◌, lit, nat_beq, nat_eq, none, not, some,
  text_beq, text_eq, true, update_where, ℕ, ◌++◌, ◌==◌, ◌∷◌,
}
use billsons_forms.Models.{
  Database, EmailDeliveryJob, EndpointDeliveryLog, JobStatus, Table, delivered, failed, processing,
  queued, with_rows,
}
use billsons_forms.Config.{Settings}
use billsons_forms.Strings.{Unicode}
use billsons_forms.Network.{NetworkLibrary, Result, err, ok}
use billsons_forms.Queue.{claim_job, complete_job, completed, fail_job, refresh_job_heartbeat}
use billsons_forms.Snapshot.{Codec, DeliverySnapshot, decrypt_job_snapshot}
use billsons_forms.Email.{
  DeliveryError, SmtpLibrary, permanent_email_error, send_submission_email, temporary_email_error,
  unexpected_error,
}

-- A turn of the heartbeat's loop: what others did before it, its time, and whether the call raises.
pub record Tick : Type 0 where
  pub others : Database → Database
  pub at : ℕ
  pub raises : Bool

-- What happens around the round's own calls: the rows that others hold and the time at the claim,
-- the turns of the heartbeat until the mail is sent, and what others did until the outcome is
-- written, and the time of that.
pub record Schedule : Type 0 where
  pub busy : ℕ → Bool
  pub claim_at : ℕ
  pub ticks : List Tick
  pub others : Database → Database
  pub finish_at : ℕ

-- Whether the ownership is lost, where the stop event is set after the last of the turns.
unfoldable pub heartbeat_job : List Tick → ℕ → Text → Database → Bool × Database
heartbeat_job [] job_id worker_id db = (false, db)
heartbeat_job (tick ∷ ticks) job_id worker_id db =
    let db' = tick.others db in
    let (still_owned, jobs) = refresh_job_heartbeat db'.jobs job_id worker_id tick.at in
    let refreshed = record db' { jobs = jobs } in
    let rest = heartbeat_job ticks job_id worker_id refreshed in
    if tick.raises then (true, db') else if not still_owned then (true, refreshed) else rest

abbrev pub status_text : JobStatus → Text
status_text queued = lit "queued"
status_text processing = lit "processing"
status_text delivered = lit "delivered"
status_text failed = lit "failed"

abbrev pub of_job : ℕ → EndpointDeliveryLog → Bool
of_job job_id log = holds (λ id. id == job_id) log.delivery_job_id

abbrev pub with_delivery : Bool → Text → Option Text → EndpointDeliveryLog → EndpointDeliveryLog
with_delivery success delivery_status error log = record log {
  success = success;
  delivery_status = some delivery_status;
  error_message = error;
}

unfoldable pub update_delivery_log : Database → ℕ → Bool → Text → Option Text → Database
update_delivery_log db job_id success delivery_status error = record db {
  logs =
      with_rows db.logs
        (update_where (of_job job_id) (with_delivery success delivery_status error) db.logs.rows);
}

-- `fail_job`, and the log where it answers with a status.
abbrev pub logged_failure :
    ℕ → Text → Database → Option JobStatus × Table EmailDeliveryJob → Database
logged_failure job_id error db (none, jobs) = record db { jobs = jobs }
logged_failure job_id error db (some new_status, jobs) =
    update_delivery_log (record db { jobs = jobs }) job_id false (status_text new_status)
      (some error)

unfoldable pub fail_delivery : Database → ℕ → Text → ℕ → Text → Bool → Text → Database
fail_delivery db job_id worker_id now error retryable log_error =
    logged_failure job_id log_error db (fail_job db.jobs job_id worker_id now error retryable)

unfoldable pub complete_delivery : Database → ℕ → Text → ℕ → Database
complete_delivery db job_id worker_id now =
    let (completed, jobs) = complete_job db.jobs job_id worker_id now in
    let db' = record db { jobs = jobs } in
    if completed then update_delivery_log db' job_id true (lit "delivered") none else db'

-- The outcome of a delivery is written, unless the heartbeat has lost the job.
unfoldable pub finish_delivery : Database → ℕ → Text → ℕ → Bool → Option DeliveryError → Database
finish_delivery db job_id worker_id now true delivery_error = db
finish_delivery db job_id worker_id now false none = complete_delivery db job_id worker_id now
finish_delivery db job_id worker_id now false (some (permanent_email_error message)) =
    fail_delivery db job_id worker_id now (lit "PermanentEmailError: " ++ message) false
      (lit "Permanent SMTP failure: " ++ message)
finish_delivery db job_id worker_id now false (some (temporary_email_error message)) =
    fail_delivery db job_id worker_id now (lit "TemporaryEmailError: " ++ message) true
      (lit "Temporary SMTP failure: " ++ message)
finish_delivery db job_id worker_id now false (some (unexpected_error name message)) =
    fail_delivery db job_id worker_id now (name ++ lit ": " ++ message) true
      (lit "Temporary SMTP failure: " ++ message)

module _ {Value : Type 0} (s : Settings) (u : Unicode) (net : NetworkLibrary) (codec : Codec Value)
    (smtp : SmtpLibrary Value) where
  abbrev pub deliver : Text → Schedule → ℕ → DeliverySnapshot Value → Bool × Database → Database
  deliver worker_id schedule job_id snapshot (lost, db) =
      finish_delivery (schedule.others db) job_id worker_id schedule.finish_at lost
        (send_submission_email u smtp snapshot)

  abbrev pub process_job :
      Text → Schedule → EmailDeliveryJob → Result (DeliverySnapshot Value) → Database → Database
  process_job worker_id schedule job (err message) db =
      fail_delivery (schedule.others db) job.id worker_id schedule.finish_at message false
        (lit "Invalid encrypted delivery snapshot.")
  process_job worker_id schedule job (ok snapshot) db =
      deliver worker_id schedule job.id snapshot (heartbeat_job schedule.ticks job.id worker_id db)

  unfoldable pub process_one : Text → Schedule → Database → Bool × Database
  process_one worker_id schedule db =
      let (job, jobs) = claim_job s schedule.busy db.jobs worker_id schedule.claim_at in
      let db' = record db { jobs = jobs } in
      elim job [
        | none ↦ (false, db')
        | some job ↦
            (true, process_job worker_id schedule job (decrypt_job_snapshot u net codec job) db')
      ]

  -- The loop of a worker, as any number of rounds; what it sleeps between two is in their times.
  unfoldable pub run_worker : Text → List Schedule → Database → Database
  run_worker worker_id [] db = db
  run_worker worker_id (schedule ∷ rounds) db =
      run_worker worker_id rounds (process_one worker_id schedule db).1
