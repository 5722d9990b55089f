-- ===== src/Queue/Cases.antt =====
-- What a claim and a failure can have done to the table: one rule for each, by cases.
use billsons_forms.Models.{EmailDeliveryJob, JobStatus, Table, with_rows}
use billsons_forms.Base.{
  All-of_In, Bool, In, In-find, In-select, List, Option, Option-cases, Text, [], arith, false, find,
  find-holds, inl, inr, none, not, select, select-holds, some, true, ℕ, ◌&&◌, ◌≡◌,
}
use billsons_forms.Models.Tables.{IsTable, update_where-IsTable}
use billsons_forms.Config.{Settings}
use billsons_forms.Queue.{
  claim_job, claimable, claimed, fail_job, failure, first_in_order, owned, save,
}
use billsons_forms.Queue.Selection.{
  All-first_in_order, IsFirst, first_in_order-IsFirst, first_in_order-none,
}

abbrev pub Jobs : Type 0
Jobs = Table EmailDeliveryJob

abbrev pub job_key : EmailDeliveryJob → ℕ
job_key j = j.id

module _ (s : Settings) where
  pub claim_job-cases {ℓ} :
      (busy : ℕ → Bool) (t : Jobs) (worker_id : Text) (now : ℕ)
      (P : Option EmailDeliveryJob × Jobs → Type ℓ)
      → (select (λ j. not (busy j.id) && claimable s now j) t.rows ≡ [] → P (none, t))
      → ((j : EmailDeliveryJob)
          → In j t.rows
          → claimable s now j ≡ true
          → busy j.id ≡ false
          → IsFirst (select (λ j. not (busy j.id) && claimable s now j) t.rows) j
          → P (some (claimed worker_id now j), with_rows t (save (claimed worker_id now j) t.rows)))
      → P (claim_job s busy t worker_id now)
  unfolding claim_job
  claim_job-cases busy t worker_id now P nothing found =
      elim (Option-cases (first_in_order chosen)) [
        | inl e ↦ rw (e, claim_job) (nothing (first_in_order-none chosen e))
        | inr (j, e) ↦
            rw (e, claim_job)
              (found j (In-select _ t.rows (at j e)) (open_claim j e) (free j e)
                (first_in_order-IsFirst chosen j e))
      ]
    where
      test : EmailDeliveryJob → Bool
      test j = not (busy j.id) && claimable s now j

      chosen : List EmailDeliveryJob
      chosen = select (λ j. not (busy j.id) && claimable s now j) t.rows

      at : (j : EmailDeliveryJob) → first_in_order chosen ≡ some j → In j chosen
      at j e = All-first_in_order (λ a. In a chosen) chosen j (All-of_In _ chosen (λ a i. i)) e

      selected : (j : EmailDeliveryJob) → first_in_order chosen ≡ some j → test j ≡ true
      selected j e = All-first_in_order (λ a. test a ≡ true) chosen j (select-holds test t.rows) e

      open_claim :
          (j : EmailDeliveryJob) → first_in_order chosen ≡ some j → claimable s now j ≡ true
      open_claim j e = ground (arith, selected j e)

      free : (j : EmailDeliveryJob) → first_in_order chosen ≡ some j → busy j.id ≡ false
      free j e = ground (arith, selected j e)

pub fail_job-cases {ℓ} :
    (t : Jobs) (job_id : ℕ) (worker_id : Text) (now : ℕ) (error : Text) (retryable : Bool)
    (P : Option JobStatus × Jobs → Type ℓ)
    → (find (owned job_id worker_id) t.rows ≡ none → P (none, t))
    → ((j : EmailDeliveryJob)
        → In j t.rows
        → owned job_id worker_id j ≡ true
        → P (
          some (failure retryable now error j).status,
          with_rows t (save (failure retryable now error j) t.rows),
        ))
    → P (fail_job t job_id worker_id now error retryable)
unfolding fail_job
fail_job-cases t job_id worker_id now error retryable P lost held =
    elim (Option-cases (find (owned job_id worker_id) t.rows)) [
      | inl e ↦ rw (e, fail_job) (lost e)
      | inr (j, e) ↦ rw (e, fail_job) (held j (In-find _ t.rows e) (find-holds _ t.rows j e))
    ]

pub id-failure :
    (retryable : Bool) (now : ℕ) (error : Text) (j : EmailDeliveryJob)
    → (failure retryable now error j).id ≡ j.id
unfolding failure
id-failure retryable now error j = ground arith

pub save-IsTable :
    (t : Jobs) (b : EmailDeliveryJob)
    → IsTable job_key t
    → IsTable job_key (with_rows t (save b t.rows))
save-IsTable t b h = update_where-IsTable job_key _ _ t (λ a hit. ground arith) h
