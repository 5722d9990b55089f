-- ===== src/Retention.antt =====
-- app/services/retention.py: the cleanup of what has outlived its retention.
pub mod Laws
mod Examples
use billsons_forms.Base.{Bool, count_where, delete_where, holds, ltb, ℕ, ◌*◌, ◌-◌}
use billsons_forms.Models.{
  AuditLog, Database, EmailDeliveryJob, EndpointDeliveryLog, RateLimitBucket, Table, UserSession,
  seconds, with_rows,
}
use billsons_forms.Config.{Settings}

pub record CleanupResult : Type 0 where
  pub delivery_logs : ℕ
  pub audit_logs : ℕ
  pub sessions : ℕ
  pub rate_buckets : ℕ
  pub queue_jobs : ℕ

abbrev days : ℕ → ℕ
days n = seconds (86400 * n)

abbrev hours : ℕ → ℕ
hours n = seconds (3600 * n)

-- The five conditions. A subtraction that would go below the epoch stops there: no row is older.
abbrev pub old_delivery_log : Settings → ℕ → EndpointDeliveryLog → Bool
old_delivery_log s now r = ltb r.created_at (now - days s.delivery_log_retention_days)

abbrev pub old_audit_log : Settings → ℕ → AuditLog → Bool
old_audit_log s now r = ltb r.created_at (now - days s.audit_log_retention_days)

abbrev pub old_session : Settings → ℕ → UserSession → Bool
old_session s now r = ltb r.expires_at (now - days s.expired_session_retention_days)

abbrev pub old_bucket : Settings → ℕ → RateLimitBucket → Bool
old_bucket s now r = ltb r.expires_at (now - hours s.rate_limit_retention_hours)

abbrev pub old_job : Settings → ℕ → EmailDeliveryJob → Bool
old_job s now r = holds (λ at. ltb at (now - days s.queue_terminal_retention_days)) r.terminal_at

-- `DELETE … WHERE condition`.
abbrev sweep {ℓ} : {A : Type ℓ} → (A → Bool) → Table A → Table A
sweep p t = with_rows t (delete_where p t.rows)

unfoldable pub cleanup_expired_data : Settings → Database → ℕ → CleanupResult × Database
cleanup_expired_data s db now = (
  record {
    delivery_logs = count_where (old_delivery_log s now) db.logs.rows;
    audit_logs = count_where (old_audit_log s now) db.audits.rows;
    sessions = count_where (old_session s now) db.sessions.rows;
    rate_buckets = count_where (old_bucket s now) db.buckets.rows;
    queue_jobs = count_where (old_job s now) db.jobs.rows;
  },
  record db {
    logs = sweep (old_delivery_log s now) db.logs;
    audits = sweep (old_audit_log s now) db.audits;
    sessions = sweep (old_session s now) db.sessions;
    buckets = sweep (old_bucket s now) db.buckets;
    jobs = sweep (old_job s now) db.jobs;
  },
)
