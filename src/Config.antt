-- ===== src/Config.antt =====
-- app/core/config.py: the settings that the modelled code reads, as naturals in the unit that each
-- name gives, and the validators that reject a timing which the queue cannot work with.
use billsons_forms.Base.{
  ℕ, Bool, Text, Option, none, some, ◌<◌, ◌≡◌, ◌&&◌, true, false, arith, leb, if◌then◌else◌,
}

-- Four of the numbers are checked to be positive. The source does not check the others, the limits of
-- the login, the retention times and the attempts of the queue; settings where one of them is negative
-- are left out.
pub record Settings : Type 0 where
  pub app_secret_key : Text
  pub base_url : Text
  pub secure_cookies : Bool
  pub session_lifetime_hours : ℕ
  pub login_rate_limit_requests : ℕ
  pub login_rate_limit_window_seconds : ℕ
  pub absolute_max_payload_kb : ℕ
  pub delivery_log_retention_days : ℕ
  pub audit_log_retention_days : ℕ
  pub expired_session_retention_days : ℕ
  pub rate_limit_retention_hours : ℕ
  pub queue_terminal_retention_days : ℕ
  pub queue_max_attempts : ℕ
  pub queue_lock_timeout_seconds : ℕ
  pub queue_heartbeat_seconds : ℕ

-- `positive_values`, at the four fields that it is declared for.
positive_values : Settings → Bool
positive_values s =
    leb 1 s.session_lifetime_hours
    && leb 1 s.absolute_max_payload_kb
    && leb 1 s.queue_lock_timeout_seconds
    && leb 1 s.queue_heartbeat_seconds

-- `validate_queue_timing`.
validate_queue_timing : Settings → Bool
validate_queue_timing s =
    if leb s.queue_lock_timeout_seconds s.queue_heartbeat_seconds then false else true

-- Constructing the settings raises unless both validators pass.
unfoldable pub load_settings : Settings → Option Settings
unfolding positive_values validate_queue_timing
load_settings s = if positive_values s && validate_queue_timing s then some s else none

-- Settings that load leave room for a heartbeat within the lock timeout.
pub load_settings-lt :
    (s t : Settings)
    → load_settings s ≡ some t
    → t.queue_heartbeat_seconds < t.queue_lock_timeout_seconds
unfolding load_settings
load_settings-lt s t h = ground arith
