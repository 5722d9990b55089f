-- ===== src/Queue/Ownership.antt =====
-- Only the worker that holds a job can move it on, and the holder always can.
use billsons_forms.Models.{EmailDeliveryJob, JobStatus, with_rows}
use billsons_forms.Base.{
  All, All-In, All-of_In, Bool, Bool-cases, In, In-unique, In-update_where, Option, Text, arith,
  count_where, count_where-keyed, count_where-none, false, find-eq-none, find-none, inl, inr,
  nat_eq, none, refl, some, subst, sym, text_eq, true, update_where-none, ℕ, ◌==◌, ◌≡◌, ◌≢◌,
}
use mathlib.Core.Path.{ap₂}
use billsons_forms.Models.Tables.{IsTable}
use billsons_forms.Queue.Cases.{Jobs, fail_job-cases, id-failure, job_key}
use billsons_forms.Queue.{
  complete_job, completed, fail_job, failure, owned, refresh_job_heartbeat, save,
}

-- The worker holds the job: the row with its key is in progress and locked by the worker.
abbrev pub Owns : Jobs → ℕ → Text → Type 0
Owns t job_id worker_id = (j : EmailDeliveryJob) × In j t.rows × (owned job_id worker_id j ≡ true)

no_row :
    (t : Jobs) (job_id : ℕ) (worker_id : Text)
    → ¬ Owns t job_id worker_id
    → All (λ j. owned job_id worker_id j ≡ false) t.rows
no_row t job_id worker_id lost = All-of_In _ t.rows λ j i.
    elim (Bool-cases (owned job_id worker_id j)) [
      | inl hit ↦ absurd (lost (j, i, hit))
      | inr miss ↦ miss
    ]

-- A worker that does not hold a job changes nothing by refreshing, completing or failing it, and is
-- told so.
pub not_owner_changes_nothing :
    (t : Jobs) (job_id : ℕ) (worker_id : Text) (now : ℕ) (error : Text) (retryable : Bool)
    → ¬ Owns t job_id worker_id
    → (refresh_job_heartbeat t job_id worker_id now ≡ (false, t))
      × (complete_job t job_id worker_id now ≡ (false, t))
      × (fail_job t job_id worker_id now error retryable ≡ (none, t))
unfolding refresh_job_heartbeat complete_job fail_job
not_owner_changes_nothing t job_id worker_id now error retryable lost =
    let rows : All (λ j. owned job_id worker_id j ≡ false) t.rows =
      no_row t job_id worker_id lost in
    let no_rows : count_where (owned job_id worker_id) t.rows ≡ 0 =
      count_where-none _ t.rows rows in
    (
      ap₂ (λ n r. (n == 1, with_rows t r)) no_rows (update_where-none _ _ t.rows rows),
      ap₂ (λ n r. (n == 1, with_rows t r)) no_rows (update_where-none _ _ t.rows rows),
      rw (find-eq-none _ t.rows rows, fail_job) refl,
    )

abbrev FailedRow : Jobs → EmailDeliveryJob → ℕ → Text → Bool → Option JobStatus × Jobs → Type 0
FailedRow t j now error retryable r =
    (r.0 ≡ some (failure retryable now error j).status)
    × In (failure retryable now error j) r.1.rows

-- The worker that holds a job is told so, and its row moves on: to the refreshed row, to the
-- completed row, or to the row that a failure leaves, with the status that is reported.
pub owner_moves_on :
    (t : Jobs) (job_id : ℕ) (worker_id : Text) (now : ℕ) (error : Text) (retryable : Bool)
    → IsTable job_key t
    → (o : Owns t job_id worker_id)
    → ((refresh_job_heartbeat t job_id worker_id now).0 ≡ true)
      × In
          (record o.0 { locked_at = some now })
          (refresh_job_heartbeat t job_id worker_id now).1.rows
      × ((complete_job t job_id worker_id now).0 ≡ true)
      × In (completed now o.0) (complete_job t job_id worker_id now).1.rows
      × ((fail_job t job_id worker_id now error retryable).0
          ≡ some (failure retryable now error o.0).status)
      × In
          (failure retryable now error o.0)
          (fail_job t job_id worker_id now error retryable).1.rows
unfolding refresh_job_heartbeat complete_job
owner_moves_on t job_id worker_id now error retryable h (j, i, own) = (
  rw one_row refl,
  In-update_where _ (λ r. record r { locked_at = some now }) t.rows i own,
  rw one_row refl,
  In-update_where _ (completed now) t.rows i own,
  failed_row.0,
  failed_row.1,
)
  where
    one_row : count_where (owned job_id worker_id) t.rows ≡ 1
    one_row = count_where-keyed job_key _ job_id t.rows j h.keyed (λ a hit. ground arith) i own

    no_miss : owned job_id worker_id j ≢ false
    no_miss e = cc

    failed_row : FailedRow t j now error retryable (fail_job t job_id worker_id now error retryable)
    failed_row =
        fail_job-cases t job_id worker_id now error retryable (FailedRow t j now error retryable)
          (λ e. absurd (no_miss (All-In _ t.rows (find-none _ t.rows e) i)))
          (λ k at hit.
            let same : k ≡ j = In-unique job_key t.rows h.keyed at i (ground arith) in
            subst
              (λ x. FailedRow t j now error retryable (
                some (failure retryable now error x).status,
                with_rows t (save (failure retryable now error x) t.rows),
              ))
              (sym same)
              (
                refl,
                In-update_where _ (λ _. failure retryable now error j) t.rows i
                    (ground (arith, id-failure retryable now error j)),
              ))
