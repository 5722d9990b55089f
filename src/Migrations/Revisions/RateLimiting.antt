-- ===== src/Migrations/Revisions/RateLimiting.antt =====
-- alembic/versions/7f0a1c2d3e4f_add_rate_limiting.py
use billsons_forms.Base.{List, [], ◌∷◌, lit, some, false}
use billsons_forms.Migrations.{
  Operation, Revision, add_column, boolean, create_index, create_table, drop_column, drop_table,
  integer, primary_key, required, timestamp, timestamps, unique_key, varchar, with_default,
}

abbrev upgrade : List Operation
upgrade =
    add_column "form_endpoints" (with_default "true" (required "rate_limit_enabled" boolean))
    ∷ add_column "form_endpoints" (with_default "30" (required "rate_limit_requests" integer))
    ∷ add_column "form_endpoints" (with_default "60" (required "rate_limit_window_seconds" integer))
    ∷ create_table "rate_limit_buckets"
        (required "id" integer
          ∷ required "scope" (varchar 150)
          ∷ required "subject_key" (varchar 64)
          ∷ required "window_start" timestamp
          ∷ required "request_count" integer
          ∷ required "expires_at" timestamp
          ∷ timestamps)
        (primary_key "id"
          ∷ unique_key "uq_rate_limit_bucket" ("scope" ∷ "subject_key" ∷ "window_start" ∷ [])
          ∷ [])
    ∷ create_index "ix_rate_limit_buckets_scope" "rate_limit_buckets" "scope" false
    ∷ create_index "ix_rate_limit_buckets_expires_at" "rate_limit_buckets" "expires_at" false
    ∷ []

abbrev downgrade : List Operation
downgrade =
    drop_table "rate_limit_buckets"
    ∷ drop_column "form_endpoints" "rate_limit_window_seconds"
    ∷ drop_column "form_endpoints" "rate_limit_requests"
    ∷ drop_column "form_endpoints" "rate_limit_enabled"
    ∷ []

abbrev pub rate_limiting : Revision
rate_limiting = record {
  revision = lit "7f0a1c2d3e4f";
  down_revision = some (lit "e5a669540334");
  upgrade = upgrade;
  downgrade = downgrade;
}
