-- ===== src/Migrations/Revisions/DeliveryQueue.antt =====
-- alembic/versions/8a1b2c3d4e5f_add_email_delivery_queue.py
use billsons_forms.Base.{List, [], ◌∷◌, lit, some, false}
use billsons_forms.Migrations.{
  Operation, Revision, add_column, create_index, create_table, drop_column, drop_index, drop_table,
  foreign_key, integer, optional, primary_key, required, text, timestamp, timestamps, varchar,
}

abbrev upgrade : List Operation
upgrade =
    create_table "email_delivery_jobs"
      (required "id" integer
        ∷ required "endpoint_id" integer
        ∷ optional "encrypted_payload" text
        ∷ required "status" (varchar 30)
        ∷ required "attempts" integer
        ∷ required "max_attempts" integer
        ∷ required "available_at" timestamp
        ∷ optional "locked_at" timestamp
        ∷ optional "locked_by" (varchar 100)
        ∷ optional "delivered_at" timestamp
        ∷ optional "terminal_at" timestamp
        ∷ optional "last_error" text
        ∷ timestamps)
      (primary_key "id" ∷ foreign_key "endpoint_id" "form_endpoints" "id" ∷ [])
    ∷ create_index "ix_email_delivery_jobs_endpoint_id" "email_delivery_jobs" "endpoint_id" false
    ∷ create_index "ix_email_delivery_jobs_status" "email_delivery_jobs" "status" false
    ∷ create_index "ix_email_delivery_jobs_available_at" "email_delivery_jobs" "available_at" false
    ∷ create_index "ix_email_delivery_jobs_terminal_at" "email_delivery_jobs" "terminal_at" false
    ∷ add_column "endpoint_delivery_logs" (optional "delivery_job_id" integer)
    ∷ add_column "endpoint_delivery_logs" (optional "delivery_status" (varchar 30))
    ∷ create_index "ix_endpoint_delivery_logs_delivery_job_id" "endpoint_delivery_logs"
        "delivery_job_id" false
    ∷ []

abbrev downgrade : List Operation
downgrade =
    drop_index "ix_endpoint_delivery_logs_delivery_job_id" "endpoint_delivery_logs"
    ∷ drop_column "endpoint_delivery_logs" "delivery_status"
    ∷ drop_column "endpoint_delivery_logs" "delivery_job_id"
    ∷ drop_table "email_delivery_jobs"
    ∷ []

abbrev pub delivery_queue : Revision
delivery_queue = record {
  revision = lit "8a1b2c3d4e5f";
  down_revision = some (lit "7f0a1c2d3e4f");
  upgrade = upgrade;
  downgrade = downgrade;
}
