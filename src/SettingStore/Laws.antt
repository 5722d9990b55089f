-- ===== src/SettingStore/Laws.antt =====
-- The settings are a map: reading after writing, and defaults that never overwrite.
use billsons_forms.Base.{
  All, Bool, Bool-cases, In-find, In-unique, List, Option, Option-cases, Text, [], ap, arith, false,
  find, find-append, find-holds, if◌then◌else◌, inl, inr, none, refl, some, subst, sym, text_beq,
  text_beq_iff, text_beq_refl, update_where, ℕ, ◌∙◌, ◌∷◌, ◌≡◌, ◌⊎◌,
}
use billsons_forms.Models.{Setting, Table, insert}
use billsons_forms.Models.Tables.{IsTable}
use billsons_forms.SettingStore.{
  defaults, ensure_all, ensure_default_settings, ensure_setting, get_setting, has_key,
  has_setting_id, new_setting, set_setting, with_value,
}

-- An update that keeps what a test looks at is seen by the search in place.
find-update_where_keeping :
    {A : Type 0} (p q : A → Bool) (f : A → A) (xs : List A)
    → ((a : A) → q (f a) ≡ q a)
    → find q (update_where p f xs)
      ≡ (elim (find q xs) [ none ↦ none | some b ↦ some (if p b then f b else b) ])
unfolding find update_where
find-update_where_keeping p q f [] same = refl
find-update_where_keeping p q f (x ∷ xs) same =
    ground (arith, same x, find-update_where_keeping p q f xs same)

abbrev setting_id : Setting → ℕ
setting_id r = r.id

-- The row that a write updates is not the one of another key.
other_key :
    (settings : Table Setting) (key key' : Text) (r b : Setting)
    → IsTable setting_id settings
    → find (has_key key) settings.rows ≡ some r
    → find (has_key key') settings.rows ≡ some b
    → text_beq key' key ≡ false
    → has_setting_id r.id b ≡ false
other_key settings key key' r b h found found' differ = elim (Bool-cases (has_setting_id r.id b)) [
  | inr miss ↦ miss
  | inl hit ↦
      let same : b ≡ r =
        In-unique setting_id settings.rows h.keyed (In-find _ settings.rows found')
          (In-find _ settings.rows found) (ground arith) in
      let k = (text_beq_iff r.key key).0 (find-holds _ settings.rows r found) in
      let k' = (text_beq_iff b.key key').0 (find-holds _ settings.rows b found') in
      let e : key' ≡ key = sym k' ∙ (ap (λ (x : Setting). x.key) same ∙ k) in
      absurd (ground (arith, differ, (text_beq_iff key' key).1 e))
]

read_back :
    (settings : Table Setting) (key value : Text) (default : Option Text)
    → get_setting (set_setting settings key value) key default ≡ some value
unfolding get_setting set_setting
read_back settings key value default = elim (Option-cases (find (has_key key) settings.rows)) [
  | inl absent ↦ ground (
    arith,
    absent,
    find-append (has_key key) settings.rows (new_setting key value settings.next_id),
    text_beq_refl key,
  )
  | inr (r, found) ↦ ground (
    arith,
    found,
    find-update_where_keeping (has_setting_id r.id) (has_key key) (with_value value) settings.rows
        (λ a. refl),
  )
]

read_other :
    (settings : Table Setting) (key key' value : Text) (default : Option Text)
    → IsTable setting_id settings
    → text_beq key' key ≡ false
    → get_setting (set_setting settings key value) key' default ≡ get_setting settings key' default
unfolding get_setting set_setting
read_other settings key key' value default h differ =
    elim (Option-cases (find (has_key key) settings.rows)) [
      | inl absent ↦ ground (
        arith,
        absent,
        find-append (has_key key') settings.rows (new_setting key value settings.next_id),
        differ,
        text_beq_iff key key',
        text_beq_iff key' key,
      )
      | inr (r, found) ↦ elim (Option-cases (find (has_key key') settings.rows)) [
        | inl absent ↦ ground (
          arith,
          found,
          absent,
          find-update_where_keeping (has_setting_id r.id) (has_key key') (with_value value)
              settings.rows (λ a. refl),
        )
        | inr (b, found') ↦ ground (
          arith,
          found,
          found',
          other_key settings key key' r b h found found' differ,
          find-update_where_keeping (has_setting_id r.id) (has_key key') (with_value value)
              settings.rows (λ a. refl),
        )
      ]
    ]

-- A setting that is written is read back after the commit, and every other one is as before, in a table
-- with distinct keys.
pub get_setting-set_setting :
    (settings : Table Setting) (key key' value : Text) (default : Option Text)
    → IsTable (λ (r : Setting). r.id) settings
    → get_setting (set_setting settings key value) key' default
      ≡ (if text_beq key' key then some value else get_setting settings key' default)
get_setting-set_setting settings key key' value default h = elim (Bool-cases (text_beq key' key)) [
  | inl same ↦ rw same (
      subst (λ k. get_setting (set_setting settings key value) k default ≡ some value)
        (sym ((text_beq_iff key' key).0 same)) (read_back settings key value default))
  | inr differ ↦ rw differ (read_other settings key key' value default h differ)
]

-- The setting is there already, or a new row is added.
ensured :
    (settings : Table Setting) (k v : Text)
    → ((q : Setting) × (find (has_key k) settings.rows ≡ some q)
        × (ensure_setting settings k v ≡ settings))
      ⊎ ((find (has_key k) settings.rows ≡ none)
          × (ensure_setting settings k v ≡ insert (new_setting k v) settings))
unfolding ensure_setting
ensured settings k v = elim (Option-cases (find (has_key k) settings.rows)) [
  | inr (q, found) ↦ inl (q, found, rw (found, ensure_setting) refl)
  | inl absent ↦ inr (absent, rw (absent, ensure_setting) refl)
]

-- A row that is found stays found, as it is, when defaults are added.
found_stays :
    (wanted : List (Text × Text)) (settings : Table Setting) (key : Text) (r : Setting)
    → find (has_key key) settings.rows ≡ some r
    → find (has_key key) (ensure_all wanted settings).rows ≡ some r
unfolding ensure_all ensure_setting
found_stays [] settings key r found = found
found_stays ((k, v) ∷ wanted) settings key r found = elim (ensured settings k v) [
  | inl (q, there_already, e) ↦
      subst (λ t. find (has_key key) (ensure_all wanted t).rows ≡ some r) (sym e)
        (found_stays wanted settings key r found)
  | inr (absent, e) ↦
      subst (λ t. find (has_key key) (ensure_all wanted t).rows ≡ some r) (sym e)
        (found_stays wanted (insert (new_setting k v) settings) key r (
          ground (
            arith,
            found,
            find-append (has_key key) settings.rows (new_setting k v settings.next_id),
          )))
]

-- Each of the keys has a row.
abbrev pub AllFound : List (Text × Text) → Table Setting → Type 0
AllFound wanted settings =
    All (λ (kv : Text × Text). (r : Setting) × (find (has_key kv.0) settings.rows ≡ some r)) wanted

-- A key that is wanted is found after the loop.
wanted_found :
    (wanted : List (Text × Text)) (settings : Table Setting)
    → AllFound wanted (ensure_all wanted settings)
unfolding ensure_all
wanted_found [] settings = tt
wanted_found ((k, v) ∷ wanted) settings = elim (ensured settings k v) [
  | inl (q, found, e) ↦
      subst (λ t. AllFound ((k, v) ∷ wanted) (ensure_all wanted t)) (sym e)
        ((q, found_stays wanted settings k q found), wanted_found wanted settings)
  | inr (absent, e) ↦
      let row = new_setting k v settings.next_id in
      subst (λ t. AllFound ((k, v) ∷ wanted) (ensure_all wanted t)) (sym e)
        (
          (
            row,
            found_stays wanted (insert (new_setting k v) settings) k row (
                ground (arith, absent, find-append (has_key k) settings.rows row, text_beq_refl k)),
          ),
          wanted_found wanted (insert (new_setting k v) settings),
        )
]

-- Adding the defaults makes every default key present, and changes no setting that was there.
pub ensure_default_settings-adds :
    (settings : Table Setting)
    → All
        (λ (kv : Text × Text).
          (r : Setting) × (find (has_key kv.0) (ensure_default_settings settings).rows ≡ some r))
        defaults
      × ((key : Text) (default : Option Text) (r : Setting)
          → find (has_key key) settings.rows ≡ some r
          → get_setting (ensure_default_settings settings) key default
            ≡ get_setting settings key default)
unfolding ensure_default_settings get_setting
ensure_default_settings-adds settings = (
  wanted_found defaults settings,
  λ key default r found. ground (arith, found, found_stays defaults settings key r found),
)
