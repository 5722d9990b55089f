-- ===== src/SettingStore.antt =====
-- app/services/settings.py: the settings that are kept in a table, as a map from keys to values. The
-- operations only add and change rows, and the session of app/db/session.py does not flush by itself: a
-- read sees a row that they add once the caller has committed. Each takes the rows that were committed
-- before it, and gives those that its caller's commit leaves.
pub mod Laws
mod Examples
use mathlib.Core.List.{reverse}
use billsons_forms.Base.{
  Bool, List, Option, Text, [], find, lit, nat_beq, nat_eq, none, some, text_beq, text_eq,
  update_where, ℕ, ◌==◌, ◌∷◌,
}
use billsons_forms.Models.{Setting, Table, insert, with_rows}

abbrev pub has_key : Text → Setting → Bool
has_key key r = r.key == key

unfoldable pub get_setting : Table Setting → Text → Option Text → Option Text
get_setting settings key default = elim (find (has_key key) settings.rows) [
  | none ↦ default
  | some r ↦ r.value
]

abbrev pub new_setting : Text → Text → ℕ → Setting
new_setting key value id = record { id = id; key = key; value = some value }

abbrev pub has_setting_id : ℕ → Setting → Bool
has_setting_id id r = r.id == id

abbrev pub with_value : Text → Setting → Setting
with_value value r = record r { value = some value }

unfoldable pub set_setting : Table Setting → Text → Text → Table Setting
set_setting settings key value = elim (find (has_key key) settings.rows) [
  | some r ↦
      with_rows settings (update_where (has_setting_id r.id) (with_value value) settings.rows)
  | none ↦ insert (new_setting key value) settings
]

-- A later row of the same key takes the place of an earlier one.
unfoldable pub get_settings_dict : Table Setting → Text → Option (Option Text)
get_settings_dict settings key = elim (find (has_key key) (reverse settings.rows)) [
  | none ↦ none
  | some r ↦ some r.value
]

unfoldable pub ensure_setting : Table Setting → Text → Text → Table Setting
ensure_setting settings key default_value = elim (find (has_key key) settings.rows) [
  | some r ↦ settings
  | none ↦ insert (new_setting key default_value) settings
]

abbrev pub defaults : List (Text × Text)
defaults =
    (lit "site_name", lit "Billson's Forms")
    ∷ (lit "default_timezone", lit "Europe/London")
    ∷ (lit "public_base_url", lit "https://test.billson.xyz")
    ∷ (lit "delivery_log_retention_days", lit "365")
    ∷ (lit "audit_log_retention_days", lit "730")
    ∷ (lit "expired_session_retention_days", lit "30")
    ∷ (lit "rate_limit_retention_hours", lit "0")
    ∷ (lit "queue_terminal_retention_days", lit "7")
    ∷ []

-- The loop of `ensure_default_settings`.
unfoldable pub ensure_all : List (Text × Text) → Table Setting → Table Setting
ensure_all [] settings = settings
ensure_all ((key, value) ∷ rest) settings = ensure_all rest (ensure_setting settings key value)

unfoldable pub ensure_default_settings : Table Setting → Table Setting
ensure_default_settings settings = ensure_all defaults settings
