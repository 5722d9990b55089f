-- ===== src/Migrations/Revisions/InitialSchema.antt =====
-- alembic/versions/f62045a39b3b_initial_schema.py
use billsons_forms.Base.{List, [], ◌∷◌, lit, none, true, false}
use billsons_forms.Migrations.{
  Operation, Revision, boolean, create_index, create_table, drop_index, drop_table, foreign_key,
  integer, optional, primary_key, required, text, timestamp, timestamps, varchar,
}

abbrev upgrade : List Operation
upgrade =
    create_table "settings"
      (required "id" integer ∷ required "key" (varchar 150) ∷ optional "value" text ∷ timestamps)
      (primary_key "id" ∷ [])
    ∷ create_index "ix_settings_id" "settings" "id" false
    ∷ create_index "ix_settings_key" "settings" "key" true
    ∷ create_table "users"
        (required "id" integer
          ∷ required "username" (varchar 100)
          ∷ required "display_name" (varchar 255)
          ∷ required "password_hash" (varchar 255)
          ∷ required "role" (varchar 50)
          ∷ required "is_active" boolean
          ∷ required "is_deleted" boolean
          ∷ timestamps)
        (primary_key "id" ∷ [])
    ∷ create_index "ix_users_id" "users" "id" false
    ∷ create_index "ix_users_username" "users" "username" true
    ∷ create_table "audit_logs"
        (required "id" integer
          ∷ optional "user_id" integer
          ∷ optional "username" (varchar 100)
          ∷ required "action" (varchar 150)
          ∷ optional "details" text
          ∷ optional "ip_address" (varchar 100)
          ∷ timestamps)
        (foreign_key "user_id" "users" "id" ∷ primary_key "id" ∷ [])
    ∷ create_index "ix_audit_logs_id" "audit_logs" "id" false
    ∷ create_table "user_sessions"
        (required "id" integer
          ∷ required "user_id" integer
          ∷ required "session_token_hash" (varchar 255)
          ∷ required "expires_at" timestamp
          ∷ optional "ip_address" (varchar 100)
          ∷ optional "user_agent" (varchar 500)
          ∷ timestamps)
        (foreign_key "user_id" "users" "id" ∷ primary_key "id" ∷ [])
    ∷ create_index "ix_user_sessions_id" "user_sessions" "id" false
    ∷ create_index "ix_user_sessions_session_token_hash" "user_sessions" "session_token_hash" true
    ∷ create_index "ix_user_sessions_user_id" "user_sessions" "user_id" false
    ∷ []

abbrev downgrade : List Operation
downgrade =
    drop_index "ix_user_sessions_user_id" "user_sessions"
    ∷ drop_index "ix_user_sessions_session_token_hash" "user_sessions"
    ∷ drop_index "ix_user_sessions_id" "user_sessions"
    ∷ drop_table "user_sessions"
    ∷ drop_index "ix_audit_logs_id" "audit_logs"
    ∷ drop_table "audit_logs"
    ∷ drop_index "ix_users_username" "users"
    ∷ drop_index "ix_users_id" "users"
    ∷ drop_table "users"
    ∷ drop_index "ix_settings_key" "settings"
    ∷ drop_index "ix_settings_id" "settings"
    ∷ drop_table "settings"
    ∷ []

abbrev pub initial_schema : Revision
initial_schema = record {
  revision = lit "f62045a39b3b";
  down_revision = none;
  upgrade = upgrade;
  downgrade = downgrade;
}
