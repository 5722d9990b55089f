-- ===== src/SettingStore/Examples.antt =====
-- Settings that are written and read.
use billsons_forms.Base.{[], arith, find, if◌then◌else◌, lit, none, refl, some, text_beq, ◌∷◌, ◌≡◌}
use billsons_forms.Models.{Setting, Table}
use billsons_forms.SettingStore.{
  ensure_all, ensure_default_settings, ensure_setting, get_setting, new_setting, set_setting,
}
use billsons_forms.SettingStore.Laws.{get_setting-set_setting}

abbrev one_setting : Table Setting
one_setting = record { rows = new_setting (lit "site_name") (lit "Forms") 1 ∷ []; next_id = 2 }

get_setting-set_setting_example :
    get_setting (set_setting one_setting (lit "site_name") (lit "New")) (lit "site_name") none ≡ (
      if text_beq (lit "site_name") (lit "site_name")
      then some (lit "New")
      else get_setting one_setting (lit "site_name") none)
get_setting-set_setting_example =
    get_setting-set_setting one_setting (lit "site_name") (lit "site_name") (lit "New") none
      (record { keyed = (tt, tt); below = (omega arith, tt) })

defaults_run :
    get_setting (ensure_default_settings one_setting) (lit "site_name") none ≡ some (lit "Forms")
unfolding get_setting ensure_default_settings ensure_all ensure_setting find text_beq lit
defaults_run = refl
