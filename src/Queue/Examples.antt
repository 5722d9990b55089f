-- ===== src/Queue/Examples.antt =====
-- The queue at work: one job through a claim, a lost worker, a reclaim and its delivery.
use billsons_forms.Base.{
  All, All-In, Bool, In, Text, [], arith, count_where, false, find, here, none, refl, select, some,
  text_beq, true, update_where, ℕ, ◌∷◌, ◌≡◌, ◌≢◌,
}
use billsons_forms.Models.{EmailDeliveryJob, empty, seconds}
use billsons_forms.Models.Tables.{IsTable}
use billsons_forms.Config.{Settings}
use billsons_forms.Queue.{
  claim_job, claimable, claimed, complete_job, enqueue_payload, error_summary, fail_job, failure,
  first_in_order, owned, precedes, queued_job, refresh_job_heartbeat, retry_backoff_seconds,
}
use billsons_forms.Queue.Cases.{Jobs, job_key}
use billsons_forms.Queue.Steps.{Reach, completes, enqueues, next, start}
use billsons_forms.Queue.Lifecycle.{Follows, IsSound, Reach-Follows, reachable-IsSound}
use billsons_forms.Queue.Claims.{Claim, claim_job-Claim, claims_exclusive}
use billsons_forms.Queue.Ownership.{Owns}

abbrev defaults : Settings
defaults = record {
  app_secret_key = [];
  base_url = [];
  secure_cookies = true;
  session_lifetime_hours = 336;
  login_rate_limit_requests = 10;
  login_rate_limit_window_seconds = 900;
  absolute_max_payload_kb = 1024;
  delivery_log_retention_days = 365;
  audit_log_retention_days = 730;
  expired_session_retention_days = 30;
  rate_limit_retention_hours = 0;
  queue_terminal_retention_days = 7;
  queue_max_attempts = 6;
  queue_lock_timeout_seconds = 300;
  queue_heartbeat_seconds = 60;
}

abbrev free : ℕ → Bool
free _ = false

abbrev alice : Text
alice = 97 ∷ []

abbrev bob : Text
bob = 98 ∷ []

abbrev waiting : Jobs
waiting = record { rows = queued_job defaults (some 7) (some (1 ∷ [])) 0 1 ∷ []; next_id = 2 }

abbrev alices : EmailDeliveryJob
alices = claimed alice 0 (queued_job defaults (some 7) (some (1 ∷ [])) 0 1)

abbrev in_progress : Jobs
in_progress = record { rows = alices ∷ []; next_id = 2 }

queue_runs : Unit {0}
unfolding claim_job claimable first_in_order complete_job fail_job refresh_job_heartbeat failure
    retry_backoff_seconds error_summary enqueue_payload find select update_where count_where
    text_beq precedes
queue_runs = tt

claim_taken : claim_job defaults free waiting alice 0 ≡ (some alices, in_progress)
unfolding queue_runs
claim_taken = refl

reclaim_too_early : claim_job defaults free in_progress bob (seconds 300) ≡ (none, in_progress)
unfolding queue_runs
reclaim_too_early = refl

reclaim_of_abandoned :
    (claim_job defaults free in_progress bob (seconds 301)).0
    ≡ some (record alices { locked_at = some (seconds 301); locked_by = some bob; attempts = 2 })
unfolding queue_runs
reclaim_of_abandoned = refl

first_failure_waits : (fail_job in_progress 1 alice (seconds 9) [] true).1 ≡ record {
  rows =
      record (queued_job defaults (some 7) (some (1 ∷ [])) (seconds 24) 1) {
        attempts = 1;
        last_error = some [];
      }
      ∷ [];
  next_id = 2;
}
unfolding queue_runs
first_failure_waits = refl

in_progress-IsTable : IsTable job_key in_progress
in_progress-IsTable = record { keyed = (tt, tt); below = omega arith }

waiting-IsTable : IsTable job_key waiting
waiting-IsTable = record { keyed = (tt, tt); below = omega arith }

abbrev enqueued : Reach defaults empty waiting
enqueued = unfold enqueue_payload in next start (enqueues (some 7) (1 ∷ []) 0)

reachable-IsSound_example : IsTable job_key waiting × All IsSound waiting.rows
reachable-IsSound_example = reachable-IsSound defaults enqueued

abbrev delivering : Reach defaults in_progress (complete_job in_progress 1 alice (seconds 5)).1
delivering = next start (completes 1 alice (seconds 5))

Reach-Follows_example :
    (k : EmailDeliveryJob) × In k (complete_job in_progress 1 alice (seconds 5)).1.rows
    × Follows alices k
Reach-Follows_example = Reach-Follows defaults alices delivering in_progress-IsTable (here refl)

claim_job-Claim_example :
    Claim defaults free waiting alice 0 (claim_job defaults free waiting alice 0)
claim_job-Claim_example = claim_job-Claim defaults free waiting alice 0

abbrev second_job : EmailDeliveryJob
second_job = queued_job defaults none (some (2 ∷ [])) 3 2

abbrev two_waiting : Jobs
two_waiting = record {
  rows = queued_job defaults (some 7) (some (1 ∷ [])) 0 1 ∷ second_job ∷ [];
  next_id = 3;
}

two_waiting-IsTable : IsTable job_key two_waiting
two_waiting-IsTable = record { keyed = ((λ e. omega arith, tt), (tt, tt)); below = omega arith }

two_claims :
    (claim_job defaults free two_waiting alice 10).0
    ≡ some (claimed alice 10 (queued_job defaults (some 7) (some (1 ∷ [])) 0 1))
unfolding queue_runs
two_claims = refl

two_claims_second :
    (claim_job defaults free (claim_job defaults free two_waiting alice 10).1 bob 11).0
    ≡ some (claimed bob 11 second_job)
unfolding queue_runs
two_claims_second = refl

claims_exclusive_example : ◌≢◌ {A = ℕ} 2 1
claims_exclusive_example =
    claims_exclusive defaults free free two_waiting alice bob 10 11 _ _ two_waiting-IsTable
      (omega arith) two_claims two_claims_second

bob_lost : ¬ Owns in_progress 1 bob
bob_lost (j, i, own) =
    ground (
      arith,
      All-In (λ x. owned 1 bob x ≡ false) in_progress.rows (unfold text_beq in (refl, tt)) i,
    )

abbrev alice_owns : Owns in_progress 1 alice
alice_owns = (alices, here refl, unfold text_beq in refl)
