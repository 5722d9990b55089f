-- ===== src/Models.antt =====
-- app/db/models/*.py: the rows of the database and the tables that hold them.
-- A point in time is a count of microseconds since the epoch. `created_at` is kept where the code
-- reads it; `updated_at` is never read, and is left out. The lengths of the columns are no part of the
-- rows: a handler asks `fits` before it writes a text that nothing else bounds.
pub mod Tables
pub mod Names
use billsons_forms.Base.{
  ℕ, suc, ◌*◌, Bool, true, leb, length, Text, Option, none, some, List, [], ◌∷◌, ◌++◌,
}

-- app/db/models/email_delivery_job.py: the four values that the code writes into `status`.
pub data JobStatus : Type 0 where
  queued processing delivered failed : JobStatus

pub record EmailDeliveryJob : Type 0 where
  pub id : ℕ
  pub endpoint_id : Option ℕ
  pub encrypted_payload : Option Text
  pub status : JobStatus
  pub attempts : ℕ
  pub max_attempts : ℕ
  pub available_at : ℕ
  pub locked_at : Option ℕ
  pub locked_by : Option Text
  pub delivered_at : Option ℕ
  pub terminal_at : Option ℕ
  pub last_error : Option Text

pub record EndpointDeliveryLog : Type 0 where
  pub id : ℕ
  pub endpoint_id : ℕ
  pub success : Bool
  pub ip_address : Option Text
  pub origin : Option Text
  pub user_agent : Option Text
  pub cap_verified : Bool
  pub smtp_host : Option Text
  pub smtp_port : Option ℕ
  pub sender_email : Option Text
  pub recipient_summary : Option Text
  pub payload_size_bytes : Option ℕ
  pub error_message : Option Text
  pub delivery_job_id : Option ℕ
  pub delivery_status : Option Text
  pub created_at : ℕ

pub record RateLimitBucket : Type 0 where
  pub id : ℕ
  pub scope : Text
  pub subject_key : Text
  pub window_start : ℕ
  pub request_count : ℕ
  pub expires_at : ℕ

pub record AuditLog : Type 0 where
  pub id : ℕ
  pub user_id : Option ℕ
  pub username : Option Text
  pub action : Text
  pub details : Option Text
  pub ip_address : Option Text
  pub created_at : ℕ

pub record Setting : Type 0 where
  pub id : ℕ
  pub key : Text
  pub value : Option Text

pub record User : Type 0 where
  pub id : ℕ
  pub username : Text
  pub display_name : Text
  pub password_hash : Text
  pub role : Text
  pub is_active : Bool
  pub is_deleted : Bool

pub record UserSession : Type 0 where
  pub id : ℕ
  pub user_id : ℕ
  pub session_token_hash : Text
  pub expires_at : ℕ
  pub ip_address : Option Text
  pub user_agent : Option Text

pub record FormEndpoint : Type 0 where
  pub id : ℕ
  pub name : Text
  pub slug : Text
  pub description : Option Text
  pub owner_user_id : Option ℕ
  pub is_active : Bool
  pub is_deleted : Bool
  pub success_redirect_url : Option Text
  pub error_redirect_url : Option Text
  pub allowed_origins : Option Text
  pub reply_to_field : Option Text
  pub email_subject : Text
  pub email_template : Option Text
  pub smtp_host : Text
  pub smtp_port : ℕ
  pub smtp_username : Option Text
  pub smtp_password : Option Text
  pub smtp_security : Text
  pub sender_email : Text
  pub sender_name : Option Text
  pub cap_enabled : Bool
  pub cap_verify_url : Option Text
  pub cap_site_key : Option Text
  pub cap_secret_key : Option Text
  pub max_payload_kb : ℕ
  pub rate_limit_enabled : Bool
  pub rate_limit_requests : ℕ
  pub rate_limit_window_seconds : ℕ

pub record FormEndpointRecipient : Type 0 where
  pub id : ℕ
  pub endpoint_id : ℕ
  pub email : Text
  pub display_name : Option Text
  pub recipient_type : Text
  pub is_active : Bool

-- Whether a column of the given length, `String(n)`, takes the text. PostgreSQL refuses a longer one.
abbrev pub fits : ℕ → Option Text → Bool
fits limit none = true
fits limit (some text) = leb (length text) limit

-- A table with the sequence that gives the next primary key.
pub record Table {ℓ} (A : Type ℓ) : Type ℓ where
  pub rows : List A
  pub next_id : ℕ

-- `db.add(row); db.flush()`: the row takes the next key.
abbrev pub insert {ℓ} : {A : Type ℓ} → (ℕ → A) → Table A → Table A
insert row t = record { rows = t.rows ++ row t.next_id ∷ []; next_id = suc t.next_id }

abbrev pub with_rows {ℓ} : {A : Type ℓ} → Table A → List A → Table A
with_rows t rows = record t { rows = rows }

abbrev pub empty {ℓ} : {A : Type ℓ} → Table A
empty = record { rows = []; next_id = 1 }

-- The whole database, as one session sees it.
pub record Database : Type 0 where
  pub jobs : Table EmailDeliveryJob
  pub logs : Table EndpointDeliveryLog
  pub buckets : Table RateLimitBucket
  pub audits : Table AuditLog
  pub settings : Table Setting
  pub users : Table User
  pub sessions : Table UserSession
  pub endpoints : Table FormEndpoint
  pub recipients : Table FormEndpointRecipient

-- A span of seconds, in the unit of points in time.
abbrev pub seconds : ℕ → ℕ
seconds n = n * 1000000
