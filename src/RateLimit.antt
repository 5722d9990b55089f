-- ===== src/RateLimit.antt =====
-- app/services/rate_limit.py: fixed windows counted in the database. `digest` is SHA-256 in hex.
pub mod Window
pub mod Quota
pub mod Portable
mod Examples
use billsons_forms.Base.{
  Bool, List, Text, [], find, leb, max, nat_beq, nat_eq, none, some, text_beq, text_eq,
  update_where, ℕ, ◌%◌, ◌&&◌, ◌+◌, ◌-◌, ◌/◌, ◌==◌, ◌∷◌,
}
use billsons_forms.Models.{RateLimitBucket, Table, insert, seconds, with_rows}

pub record RateLimitResult : Type 0 where
  pub allowed : Bool
  pub limit : ℕ
  pub remaining : ℕ
  pub retry_after : ℕ

-- `_window`: the window of whole seconds that the time falls into. `%` by zero raises in the source.
-- An endpoint's window is at least a second; that of the logins is a setting which nothing checks.
unfoldable pub window : ℕ → ℕ → ℕ × ℕ
window now span =
    let epoch = now / 1000000 in
    let start = seconds (epoch - epoch % span) in (start, start + seconds span)

module _ (digest : Text → Text) where
  -- `_subject`.
  abbrev pub subject : Text → Text
  subject identity = digest identity

  -- The unique key of a bucket.
  abbrev pub matches : Text → Text → ℕ → RateLimitBucket → Bool
  matches scope subject_key window_start b =
      b.scope == scope && b.subject_key == subject_key && b.window_start == window_start

  abbrev new_bucket : Text → Text → ℕ → ℕ → ℕ → RateLimitBucket
  new_bucket scope subject_key start end id = record {
    id = id;
    scope = scope;
    subject_key = subject_key;
    window_start = start;
    request_count = 1;
    expires_at = end;
  }

  abbrev bump : ℕ → RateLimitBucket → RateLimitBucket
  bump end b = record b { request_count = b.request_count + 1; expires_at = end }

  -- `INSERT … ON CONFLICT DO UPDATE … RETURNING request_count`, one atomic statement.
  unfoldable pub upsert : Table RateLimitBucket → Text → Text → ℕ → ℕ → ℕ × Table RateLimitBucket
  upsert buckets scope subject_key start end =
      elim (find (matches scope subject_key start) buckets.rows) [
        | none ↦ (1, insert (new_bucket scope subject_key start end) buckets)
        | some b ↦ (
          b.request_count + 1,
          with_rows buckets
              (update_where (matches scope subject_key start) (bump end) buckets.rows),
        )
      ]

  -- The result that is computed from the count.
  abbrev pub decision : ℕ → ℕ → ℕ → ℕ → RateLimitResult
  decision now end limit count = record {
    allowed = leb count limit;
    limit = limit;
    remaining = max 0 (limit - count);
    retry_after = max 1 ((end - now) / 1000000 + 1);
  }

  -- `check_rate_limit` on PostgreSQL.
  unfoldable pub check_rate_limit :
      Table RateLimitBucket → Text → Text → ℕ → ℕ → ℕ → RateLimitResult × Table RateLimitBucket
  check_rate_limit buckets scope identity limit window_seconds now =
      let (start, end) = window now window_seconds in
      let (count, buckets') = upsert buckets scope (subject identity) start end in
      (decision now end limit count, buckets')

  -- `check_rate_limit` on another database. A commit that meets a row of the same key, which another
  -- session has committed since, is rolled back and the call made again on the table as it then is:
  -- `conflicts` are those tables, one for each commit that fails.
  unfoldable pub check_rate_limit_portable :
      List (Table RateLimitBucket)
      → Table RateLimitBucket
      → Text
      → Text
      → ℕ
      → ℕ
      → ℕ
      → RateLimitResult × Table RateLimitBucket
  check_rate_limit_portable [] buckets scope identity limit window_seconds now =
      let (start, end) = window now window_seconds in
      elim (find (matches scope (subject identity) start) buckets.rows) [
        | none ↦ (
          decision now end limit 1,
          insert (new_bucket scope (subject identity) start end) buckets,
        )
        | some b ↦ (
          decision now end limit (b.request_count + 1),
          with_rows buckets (
              update_where (λ r. r.id == b.id)
                (λ _. record b { request_count = b.request_count + 1 }) buckets.rows),
        )
      ]
  check_rate_limit_portable (committed ∷ conflicts) buckets scope identity limit window_seconds
        now =
      check_rate_limit_portable conflicts committed scope identity limit window_seconds now
