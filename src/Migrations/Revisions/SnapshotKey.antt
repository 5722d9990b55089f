-- ===== src/Migrations/Revisions/SnapshotKey.antt =====
-- alembic/versions/9b2c3d4e5f6a_delivery_job_snapshot_fk.py
use billsons_forms.Base.{List, [], ◌∷◌, lit, some, true, false}
use billsons_forms.Migrations.{
  Operation, Revision, alter_column, create_foreign_key, drop_constraint,
}

abbrev upgrade : List Operation
upgrade =
    drop_constraint "email_delivery_jobs_endpoint_id_fkey" "email_delivery_jobs"
    ∷ alter_column "email_delivery_jobs" "endpoint_id" true
    ∷ create_foreign_key "email_delivery_jobs_endpoint_id_fkey" "email_delivery_jobs"
        "form_endpoints" "endpoint_id" "id" true
    ∷ []

abbrev downgrade : List Operation
downgrade =
    drop_constraint "email_delivery_jobs_endpoint_id_fkey" "email_delivery_jobs"
    ∷ alter_column "email_delivery_jobs" "endpoint_id" false
    ∷ create_foreign_key "email_delivery_jobs_endpoint_id_fkey" "email_delivery_jobs"
        "form_endpoints" "endpoint_id" "id" false
    ∷ []

abbrev pub snapshot_key : Revision
snapshot_key = record {
  revision = lit "9b2c3d4e5f6a";
  down_revision = some (lit "8a1b2c3d4e5f");
  upgrade = upgrade;
  downgrade = downgrade;
}
