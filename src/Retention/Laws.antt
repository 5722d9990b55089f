-- ===== src/Retention/Laws.antt =====
-- The cleanup never takes what is still in use.
use billsons_forms.Base.{
  In, In-delete_where, Option, Text, arith, false, find-delete_where_other, inl, inr, length,
  length-delete_where, none, refl, some, ℕ, ◌*◌, ◌+◌, ◌≡◌, ◌≤◌, ◌⊎◌,
}
use billsons_forms.Models.{Database, EmailDeliveryJob, seconds}
use billsons_forms.Config.{Settings}
use billsons_forms.Queue.Lifecycle.{IsSound, is_terminal}
use billsons_forms.Retention.{
  cleanup_expired_data, old_audit_log, old_bucket, old_delivery_log, old_job, old_session,
}
use billsons_forms.Sessions.{get_user_from_session_token, session_matches}

-- What the cleanup reports as deleted is what is missing: each count and the rows that are left make
-- up the rows that there were.
pub cleanup_counts :
    (s : Settings) (db : Database) (now : ℕ)
    → let (r, after) = cleanup_expired_data s db now in
      (r.delivery_logs + length after.logs.rows ≡ length db.logs.rows)
      × (r.audit_logs + length after.audits.rows ≡ length db.audits.rows)
      × (r.sessions + length after.sessions.rows ≡ length db.sessions.rows)
      × (r.rate_buckets + length after.buckets.rows ≡ length db.buckets.rows)
      × (r.queue_jobs + length after.jobs.rows ≡ length db.jobs.rows)
unfolding cleanup_expired_data
cleanup_counts s db now = omega (
  arith,
  length-delete_where (old_delivery_log s now) db.logs.rows,
  length-delete_where (old_audit_log s now) db.audits.rows,
  length-delete_where (old_session s now) db.sessions.rows,
  length-delete_where (old_bucket s now) db.buckets.rows,
  length-delete_where (old_job s now) db.jobs.rows,
)

-- A sound job that has not finished is never deleted, and a finished one only when it finished more
-- than the retention time ago.
pub cleanup_keeps_jobs :
    (s : Settings) (db : Database) (now : ℕ) (j : EmailDeliveryJob)
    → IsSound j
    → In j db.jobs.rows
    → (is_terminal j.status ≡ false)
      ⊎ ((at : ℕ) × (j.terminal_at ≡ some at)
          × (now ≤ at + seconds (86400 * s.queue_terminal_retention_days)))
    → In j (cleanup_expired_data s db now).1.jobs.rows
unfolding cleanup_expired_data
cleanup_keeps_jobs s db now j h i (inl pending) = In-delete_where _ _ i (ground arith)
cleanup_keeps_jobs s db now j h i (inr (at, e, recent)) = In-delete_where _ _ i (ground arith)

-- With retention days that are not negative, which the settings do not check, no login is lost: every
-- token stands for the same user after a cleanup as before it.
pub cleanup_keeps_logins :
    (digest : Text → Text) (s : Settings) (db : Database) (now : ℕ) (token : Option Text)
    → get_user_from_session_token digest (cleanup_expired_data s db now).1 token now
      ≡ get_user_from_session_token digest db token now
unfolding cleanup_expired_data get_user_from_session_token
cleanup_keeps_logins digest s db now none = refl
cleanup_keeps_logins digest s db now (some token) = ground (
  arith,
  find-delete_where_other (session_matches digest (digest token) now) (old_session s now)
      db.sessions.rows (λ r hit. ground arith),
)
