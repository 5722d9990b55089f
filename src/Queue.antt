-- ===== src/Queue.antt =====
-- app/services/delivery_queue.py: the job table and its operations. A claim reads one snapshot of
-- the table; `busy` names the rows that other transactions hold, which SKIP LOCKED passes over.
pub mod Backoff
pub mod Selection
pub mod Cases
pub mod Steps
pub mod Lifecycle
pub mod Ownership
pub mod Claims
mod Examples
use billsons_forms.Base.{
  ℕ, suc, ◌+◌, ◌-◌, ◌*◌, ◌^◌, min, max, Bool, true, false, not, ◌&&◌, ◌||◌, Option, none, some,
  List, [], ◌∷◌, Text, ltb, leb, ◌==◌, nat_eq, text_eq, holds, is_some, take, if◌then◌else◌, find,
  select, update_where, count_where,
}
use billsons_forms.Models.{
  JobStatus, queued, processing, delivered, failed, EmailDeliveryJob, Table, insert, with_rows,
  seconds,
}
use billsons_forms.Config.{Settings}

abbrev pub is_queued : JobStatus → Bool
is_queued queued = true
is_queued _ = false

abbrev pub is_processing : JobStatus → Bool
is_processing processing = true
is_processing _ = false

-- `locked_at IS NULL OR locked_at < now - timeout`.
abbrev pub is_stale : Settings → ℕ → EmailDeliveryJob → Bool
is_stale s now job = elim job.locked_at [
  | none ↦ true
  | some at ↦ ltb at (now - seconds s.queue_lock_timeout_seconds)
]

-- The conditions of the claim's query.
unfoldable pub claimable : Settings → ℕ → EmailDeliveryJob → Bool
claimable s now job =
    leb job.available_at now
    && (is_queued job.status || is_processing job.status && is_stale s now job)

-- `ORDER BY available_at, id`.
unfoldable pub precedes : EmailDeliveryJob → EmailDeliveryJob → Bool
precedes a b =
    ltb a.available_at b.available_at || a.available_at == b.available_at && ltb a.id b.id

-- `LIMIT 1` of that order.
unfoldable pub first_in_order : List EmailDeliveryJob → Option EmailDeliveryJob
first_in_order [] = none
first_in_order (j ∷ js) = elim (first_in_order js) [
  | none ↦ some j
  | some k ↦ some (if precedes k j then k else j)
]

-- The session writes a changed object back by its primary key.
abbrev pub save : EmailDeliveryJob → List EmailDeliveryJob → List EmailDeliveryJob
save job rows = update_where (λ r. r.id == job.id) (λ _. job) rows

abbrev pub claimed : Text → ℕ → EmailDeliveryJob → EmailDeliveryJob
claimed worker_id now job = record job {
  status = processing;
  locked_at = some now;
  locked_by = some worker_id;
  attempts = suc job.attempts;
}

unfoldable pub claim_job :
    Settings
    → (ℕ → Bool)
    → Table EmailDeliveryJob
    → Text
    → ℕ
    → Option EmailDeliveryJob × Table EmailDeliveryJob
claim_job s busy jobs worker_id now =
    elim (first_in_order (select (λ j. not (busy j.id) && claimable s now j) jobs.rows)) [
      | none ↦ (none, jobs)
      | some job ↦
          let job' = claimed worker_id now job in (some job', with_rows jobs (save job' jobs.rows))
    ]

-- The `WHERE` of the three transitions: the row, in progress, held by this worker.
abbrev pub owned : ℕ → Text → EmailDeliveryJob → Bool
owned job_id worker_id job =
    job.id == job_id && is_processing job.status && holds (λ w. w == worker_id) job.locked_by

unfoldable pub refresh_job_heartbeat :
    Table EmailDeliveryJob → ℕ → Text → ℕ → Bool × Table EmailDeliveryJob
refresh_job_heartbeat jobs job_id worker_id now = (
  count_where (owned job_id worker_id) jobs.rows == 1,
  with_rows jobs
      (update_where (owned job_id worker_id) (λ j. record j { locked_at = some now }) jobs.rows),
)

abbrev pub completed : ℕ → EmailDeliveryJob → EmailDeliveryJob
completed now job = record job {
  status = delivered;
  delivered_at = some now;
  terminal_at = some now;
  encrypted_payload = none;
  locked_at = none;
  locked_by = none;
  last_error = none;
}

unfoldable pub complete_job : Table EmailDeliveryJob → ℕ → Text → ℕ → Bool × Table EmailDeliveryJob
complete_job jobs job_id worker_id now = (
  count_where (owned job_id worker_id) jobs.rows == 1,
  with_rows jobs (update_where (owned job_id worker_id) (completed now) jobs.rows),
)

unfoldable pub retry_backoff_seconds : ℕ → ℕ
retry_backoff_seconds attempts = min 3600 (15 * 2 ^ max 0 (min (attempts - 1) 20))

-- `error[:2000]`.
unfoldable pub error_summary : Text → Text
error_summary error = take 2000 error

unfoldable pub failure : Bool → ℕ → Text → EmailDeliveryJob → EmailDeliveryJob
failure retryable now error job =
    let released = record job {
      last_error = some (error_summary error);
      locked_at = none;
      locked_by = none;
    } in
    if retryable && ltb job.attempts job.max_attempts
    then record released {
      status = queued;
      available_at = now + seconds (retry_backoff_seconds job.attempts);
    }
    else record released { status = failed; terminal_at = some now; encrypted_payload = none }

-- The new status, or `none` where the worker does not hold the job.
unfoldable pub fail_job :
    Table EmailDeliveryJob → ℕ → Text → ℕ → Text → Bool → Option JobStatus × Table EmailDeliveryJob
fail_job jobs job_id worker_id now error retryable =
    elim (find (owned job_id worker_id) jobs.rows) [
      | none ↦ (none, jobs)
      | some job ↦
          let job' = failure retryable now error job in
          (some job'.status, with_rows jobs (save job' jobs.rows))
    ]

-- The row that `enqueue_delivery` adds, with the payload that the snapshot was encrypted to.
abbrev pub queued_job : Settings → Option ℕ → Option Text → ℕ → ℕ → EmailDeliveryJob
queued_job s endpoint_id payload now id = record {
  id = id;
  endpoint_id = endpoint_id;
  encrypted_payload = payload;
  status = queued;
  attempts = 0;
  max_attempts = s.queue_max_attempts;
  available_at = now;
  locked_at = none;
  locked_by = none;
  delivered_at = none;
  terminal_at = none;
  last_error = none;
}

unfoldable pub enqueue_payload :
    Settings
    → Table EmailDeliveryJob
    → Option ℕ
    → Option Text
    → ℕ
    → EmailDeliveryJob × Table EmailDeliveryJob
enqueue_payload s jobs endpoint_id payload now =
    let row = queued_job s endpoint_id payload now in (row jobs.next_id, insert row jobs)
