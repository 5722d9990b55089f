-- ===== src/Retention/Examples.antt =====
-- A cleanup of a database with a finished job, a waiting one and a session.
use billsons_forms.Base.{
  In, [], arith, delete_where, here, inl, none, refl, some, true, ℕ, ◌∷◌, ◌≡◌,
}
use billsons_forms.Models.{Database, EmailDeliveryJob, empty, seconds}
use billsons_forms.Config.{Settings}
use billsons_forms.Queue.{completed, queued_job}
use billsons_forms.Queue.Lifecycle.{IsSound}
use billsons_forms.Retention.{cleanup_expired_data}
use billsons_forms.Retention.Laws.{cleanup_keeps_jobs, cleanup_keeps_logins}
use billsons_forms.Sessions.{get_user_from_session_token}

abbrev one_day : Settings
one_day = record {
  app_secret_key = [];
  base_url = [];
  secure_cookies = true;
  session_lifetime_hours = 2;
  login_rate_limit_requests = 10;
  login_rate_limit_window_seconds = 900;
  absolute_max_payload_kb = 1024;
  delivery_log_retention_days = 1;
  audit_log_retention_days = 1;
  expired_session_retention_days = 1;
  rate_limit_retention_hours = 0;
  queue_terminal_retention_days = 1;
  queue_max_attempts = 6;
  queue_lock_timeout_seconds = 300;
  queue_heartbeat_seconds = 60;
}

abbrev pending : EmailDeliveryJob
pending = queued_job one_day none (some (1 ∷ [])) 0 1

abbrev finished : EmailDeliveryJob
finished = record (completed 7 pending) { id = 2; attempts = 1 }

abbrev full : Database
full = record {
  jobs = record { rows = pending ∷ finished ∷ []; next_id = 3 };
  logs = empty;
  buckets = empty;
  audits = empty;
  settings = empty;
  users = empty;
  sessions = empty;
  endpoints = empty;
  recipients = empty;
}

abbrev two_days : ℕ
two_days = seconds 172800

only_finished_deleted : (cleanup_expired_data one_day full two_days).1.jobs.rows ≡ pending ∷ []
unfolding cleanup_expired_data delete_where
only_finished_deleted = refl

pending-IsSound : IsSound pending
pending-IsSound = ground arith

cleanup_keeps_jobs_example : In pending (cleanup_expired_data one_day full two_days).1.jobs.rows
cleanup_keeps_jobs_example =
    cleanup_keeps_jobs one_day full two_days pending pending-IsSound (here refl) (inl refl)

cleanup_keeps_logins_example :
    get_user_from_session_token
      (λ t. t)
      (cleanup_expired_data one_day full two_days).1
      (some (1 ∷ []))
      two_days
    ≡ get_user_from_session_token (λ t. t) full (some (1 ∷ [])) two_days
cleanup_keeps_logins_example = cleanup_keeps_logins (λ t. t) one_day full two_days (some (1 ∷ []))
