-- ===== src/Migrations/Examples.antt =====
-- Runs of the revisions beside the table in which Alembic keeps the current one.
use billsons_forms.Base.{[], lit, none, refl, some, text_beq, ◌++◌, ◌∷◌, ◌≡◌}
use billsons_forms.Migrations.{
  Catalog, create_table, drop_column, drop_table, primary_key, required, table_of, varchar,
}
use billsons_forms.Migrations.Statements.{alter, asks_sequence, perform, perform_all}
use billsons_forms.Migrations.Laws.{
  IsChain, Undoes, downgrade-upgrade, upgrade-target_metadata, upgrades,
}
use billsons_forms.Migrations.Metadata.{target_metadata}
use billsons_forms.Migrations.Revisions.{history}
use billsons_forms.Migrations.Revisions.DeliveryLogs.{delivery_logs}
use billsons_forms.Strings.{starts_with}
use billsons_forms.Migrations.View.{view}

abbrev others : Catalog
others =
    table_of "alembic_version" (required "version_num" (varchar 32) ∷ [])
      (primary_key "version_num" ∷ [])
    ∷ []

-- A table is created once, and one that others refer to is not dropped.
refusals :
    (perform (create_table "alembic_version" [] []) others ≡ none)
    × (perform (drop_column "alembic_version" "version") others ≡ none)
    × (perform (drop_table "users") target_metadata ≡ none)
unfolding perform text_beq lit alter asks_sequence
refusals = (refl, refl, refl)

sequence_refused : perform_all delivery_logs.downgrade target_metadata ≡ none
unfolding perform_all perform asks_sequence starts_with text_beq lit
sequence_refused = refl

downgrade-upgrade_example : Undoes others [] history
unfolding text_beq lit
downgrade-upgrade_example = downgrade-upgrade others (
  refl,
  refl,
  (refl, refl, (refl, refl, (refl, refl, (refl, refl, (refl, refl, (refl, refl, tt)))))),
)

upgrade-target_metadata_example :
    IsChain none history
    × (own : Catalog) × (perform_all (upgrades history) others ≡ some (own ++ others))
    × (view own ≡ view target_metadata)
unfolding text_beq lit
upgrade-target_metadata_example = upgrade-target_metadata others refl
