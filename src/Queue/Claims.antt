-- ===== src/Queue/Claims.antt =====
-- Which job a claim takes: the first that is due and free, and never one whose lock is live.
use billsons_forms.Models.{
  EmailDeliveryJob, JobStatus, delivered, failed, processing, queued, seconds,
}
use billsons_forms.Base.{
  All-In, Bool, In, In-select_of, In-unique, In-update_where, In-update_where_other, Option,
  Option-cases, Text, [], ap, arith, false, inl, inr, none, not, refl, some, subst, true, ℕ, ◌&&◌,
  ◌+◌, ◌-◌, ◌<◌, ◌||◌, ◌≡◌, ◌≢◌, ◌≤◌, ◌⊎◌,
}
use billsons_forms.Models.Tables.{IsTable}
use billsons_forms.Config.{Settings}
use billsons_forms.Queue.{
  claim_job, claimable, claimed, is_processing, is_queued, is_stale, precedes,
}
use billsons_forms.Queue.Cases.{Jobs, claim_job-cases, job_key}
use billsons_forms.Queue.Steps.{Step-IsTable, claims}

module _ (s : Settings) where
  -- The lock of a job in progress is missing, or older than the lock timeout.
  abbrev pub IsAbandoned : ℕ → EmailDeliveryJob → Type 0
  IsAbandoned now j =
      (j.locked_at ≡ none)
      ⊎ ((at : ℕ) × (j.locked_at ≡ some at) × (at < now - seconds s.queue_lock_timeout_seconds))

  -- A claim may take the job: no other transaction holds its row, it is due, and it is queued or
  -- abandoned.
  abbrev pub IsOpen : (ℕ → Bool) → ℕ → EmailDeliveryJob → Type 0
  IsOpen busy now j =
      (busy j.id ≡ false)
      × (j.available_at ≤ now)
      × ((j.status ≡ queued) ⊎ ((j.status ≡ processing) × IsAbandoned now j))

  is_stale-IsAbandoned :
      (now : ℕ) (j : EmailDeliveryJob) → is_stale s now j ≡ true → IsAbandoned now j
  is_stale-IsAbandoned now j stale = elim (Option-cases j.locked_at) [
    | inl unlocked ↦ inl unlocked
    | inr (at, locked) ↦ inr (at, locked, ground (arith, stale, locked))
  ]

  status_cases :
      (status : JobStatus) (stale : Bool)
      → (is_queued status || is_processing status && stale) ≡ true
      → (status ≡ queued) ⊎ ((status ≡ processing) × (stale ≡ true))
  status_cases queued stale h = inl refl
  status_cases processing stale h = inr (refl, ground arith)
  status_cases delivered stale h = absurd (ground (arith, h))
  status_cases failed stale h = absurd (ground (arith, h))

  claimable-IsOpen :
      (busy : ℕ → Bool) (now : ℕ) (j : EmailDeliveryJob)
      → busy j.id ≡ false
      → claimable s now j ≡ true
      → IsOpen busy now j
  unfolding claimable
  claimable-IsOpen busy now j free c = (
    free,
    ground arith,
    elim (status_cases j.status (is_stale s now j) (ground arith)) [
      | inl waits ↦ inl waits
      | inr (runs, stale) ↦ inr (runs, is_stale-IsAbandoned now j stale)
    ],
  )

  IsOpen-claimable :
      (busy : ℕ → Bool) (now : ℕ) (j : EmailDeliveryJob)
      → IsOpen busy now j
      → (not (busy j.id) && claimable s now j) ≡ true
  unfolding claimable
  IsOpen-claimable busy now j (free, due, inl waits) = ground arith
  IsOpen-claimable busy now j (free, due, inr (runs, inl unlocked)) = ground arith
  IsOpen-claimable busy now j (free, due, inr (runs, inr (at, locked, old))) = ground arith

  -- The job comes before the other in the order of availability and key.
  abbrev pub IsBefore : EmailDeliveryJob → EmailDeliveryJob → Type 0
  IsBefore k j =
      (k.available_at < j.available_at) ⊎ ((k.available_at ≡ j.available_at) × (k.id < j.id))

  not-IsBefore : (k j : EmailDeliveryJob) → precedes k j ≡ false → ¬ IsBefore k j
  unfolding precedes
  not-IsBefore k j h (inl sooner) = ground arith
  not-IsBefore k j h (inr (same, less)) = ground arith

  -- What a claim may answer, and what it leaves of the table.
  pub data Claim (busy : ℕ → Bool) (t : Jobs) (worker_id : Text) (now : ℕ)
      (r : Option EmailDeliveryJob × Jobs) : Type 0 where
    nothing :
        r ≡ (none, t)
        → ((k : EmailDeliveryJob) → In k t.rows → ¬ IsOpen busy now k)
        → Claim busy t worker_id now r
    taken :
        (j : EmailDeliveryJob)
        → In j t.rows
        → IsOpen busy now j
        → ((k : EmailDeliveryJob) → In k t.rows → IsOpen busy now k → ¬ IsBefore k j)
        → r.0 ≡ some (claimed worker_id now j)
        → In (claimed worker_id now j) r.1.rows
        → ((k : EmailDeliveryJob) → In k t.rows → k.id ≢ j.id → In k r.1.rows)
        → Claim busy t worker_id now r

  -- A claim answers nothing exactly when no job is open, and leaves the table as it was; otherwise
  -- it takes an open job that no open job precedes in the order of availability and key, marks
  -- that row as its own with one attempt more, and leaves every other row as it was.
  pub claim_job-Claim :
      (busy : ℕ → Bool) (t : Jobs) (worker_id : Text) (now : ℕ)
      → Claim busy t worker_id now (claim_job s busy t worker_id now)
  claim_job-Claim busy t worker_id now =
      claim_job-cases s busy t worker_id now (Claim busy t worker_id now)
        (λ e. nothing refl (λ k i ready.
          none_open k
            (subst (In k) e (In-select_of _ t.rows i (IsOpen-claimable busy now k ready)))))
        (λ j i c free first.
          taken j i (claimable-IsOpen busy now j free c)
            (λ k i' ready.
              not-IsBefore k j
                (All-In _ _ first (In-select_of _ t.rows i' (IsOpen-claimable busy now k ready))))
            refl (In-update_where _ (λ _. claimed worker_id now j) t.rows i (ground arith))
            (λ k i' ne. In-update_where_other _ _ t.rows i' (ground arith)))
    where
      none_open : (k : EmailDeliveryJob) → In k [] → ⊥
      none_open k i = elim i [ ]

  -- A job in progress whose lock was taken or refreshed no longer than the lock timeout ago.
  abbrev pub IsLive : ℕ → EmailDeliveryJob → Type 0
  IsLive now j =
      (j.status ≡ processing)
      × ((at : ℕ) × (j.locked_at ≡ some at) × (now ≤ at + seconds s.queue_lock_timeout_seconds))

  not-claimable_of_live :
      (now : ℕ) (j : EmailDeliveryJob) → IsLive now j → claimable s now j ≡ false
  unfolding claimable
  not-claimable_of_live now j (p, (at, locked, fresh)) = ground arith

  -- No claim takes a job whose lock is live: the row stays as it was, and what is claimed is
  -- another job.
  pub claim_job-spares_live :
      (busy : ℕ → Bool) (t : Jobs) (worker_id : Text) (now : ℕ) (j : EmailDeliveryJob)
      → IsTable job_key t
      → In j t.rows
      → IsLive now j
      → In j (claim_job s busy t worker_id now).1.rows
        × ((c : EmailDeliveryJob) → (claim_job s busy t worker_id now).0 ≡ some c → c.id ≢ j.id)
  claim_job-spares_live busy t worker_id now j h i live =
      claim_job-cases s busy t worker_id now
        (λ r. In j r.1.rows × ((c : EmailDeliveryJob) → r.0 ≡ some c → c.id ≢ j.id))
        (λ _. (i, λ c e. absurd (cc)))
        (λ k at ready _ _.
          let other : k.id ≢ j.id =
            λ e. distinct k ready (In-unique job_key t.rows h.keyed at i e) in
          (In-update_where_other _ _ t.rows i (ground arith), λ c e. ground arith))
    where
      distinct : (k : EmailDeliveryJob) → claimable s now k ≡ true → k ≢ j
      distinct k ready e = cc (not-claimable_of_live now j live, ap (claimable s now) e)

  -- A claim that comes next after another, on the table that the first left, and within the lock timeout
  -- of it, does not take the same job, whichever workers make the two.
  pub claims_exclusive :
      (busy busy' : ℕ → Bool) (t : Jobs) (worker_id other_id : Text) (now later : ℕ)
      (c d : EmailDeliveryJob)
      → IsTable job_key t
      → later ≤ now + seconds s.queue_lock_timeout_seconds
      → (claim_job s busy t worker_id now).0 ≡ some c
      → (claim_job s busy' (claim_job s busy t worker_id now).1 other_id later).0 ≡ some d
      → d.id ≢ c.id
  claims_exclusive busy busy' t worker_id other_id now later c d h soon first second =
      elim (claim_job-Claim busy t worker_id now) [
        | nothing e _ ↦ absurd (no_claim (ap (λ r. r.0) e))
        | taken j _ _ _ e i _ ↦
            let same : claimed worker_id now j ≡ c = ground arith in
            let spared =
              claim_job-spares_live busy' (claim_job s busy t worker_id now).1 other_id later
                (claimed worker_id now j) (Step-IsTable s (claims busy worker_id now) h) i
                (refl, (now, refl, soon)) in
            subst (λ x. d.id ≢ x.id) same (spared.1 d second)
      ]
    where
      no_claim : (claim_job s busy t worker_id now).0 ≡ none → ⊥
      no_claim e = cc
