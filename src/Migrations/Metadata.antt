-- ===== src/Migrations/Metadata.antt =====
-- app/db/models/*.py and app/db/base.py: the tables that the models declare, which `target_metadata` of
-- alembic/env.py holds. `default`, `onupdate` and the Python types do not reach the database.
use billsons_forms.Base.{Bool, List, String, Text, [], false, lit, true, ◌++◌, ◌∷◌}
use billsons_forms.Migrations.{
  Catalog, Column, Constraint, Index, Reference, TableSchema, boolean, integer, optional, required,
  table_of, text, timestamp, timestamps, unique_key, varchar,
}

-- `primary_key=True`, `ForeignKey("table.column")`, and with `ondelete="SET NULL"`.
pub data Role : Type 0 where
  plain is_key : Role
  refers nulled_by : (target target_column : String) → Role

-- Nothing, `index=True`, and `unique=True, index=True`.
pub data IndexKind : Type 0 where
  bare indexed unique_index : IndexKind

-- One `mapped_column`.
pub data Attribute : Type 0 where
  attribute : Column → Role → IndexKind → Attribute

pub record Model : Type 0 where
  pub tablename : String
  pub attributes : List Attribute
  pub table_args : List Constraint

abbrev pub columns : List Attribute → List Column
columns [] = timestamps
columns (attribute c role kind ∷ attributes) = c ∷ columns attributes

abbrev pub reference_to : Text → Text → String → String → Bool → Reference
reference_to table column target target_column set_null = record {
  name = table ++ lit "_" ++ column ++ lit "_fkey";
  column = column;
  target = lit target;
  target_column = lit target_column;
  set_null = set_null;
}

abbrev pub add_role : Text → Role → TableSchema → TableSchema
add_role column plain t = t
add_role column is_key t = record t { primary = column ∷ t.primary }
add_role column (refers target target_column) t = record t {
  references = reference_to t.name column target target_column false ∷ t.references;
}
add_role column (nulled_by target target_column) t = record t {
  references = reference_to t.name column target target_column true ∷ t.references;
}

-- SQLAlchemy names an index `ix_<table>_<column>`.
abbrev pub index_of : Text → Text → Bool → Index
index_of table column unique = record {
  name = lit "ix_" ++ table ++ lit "_" ++ column;
  column = column;
  unique = unique;
}

abbrev pub add_index : Text → IndexKind → TableSchema → TableSchema
add_index column bare t = t
add_index column indexed t = record t { indexes = index_of t.name column false ∷ t.indexes }
add_index column unique_index t = record t { indexes = index_of t.name column true ∷ t.indexes }

abbrev pub add_attributes : List Attribute → TableSchema → TableSchema
add_attributes [] t = t
add_attributes (attribute c role kind ∷ attributes) t =
    add_role c.name role (add_index c.name kind (add_attributes attributes t))

abbrev pub schema_of : Model → TableSchema
schema_of m = add_attributes m.attributes (table_of m.tablename (columns m.attributes) m.table_args)

abbrev pub setting_model : Model
setting_model = record {
  tablename = "settings";
  attributes =
      attribute (required "id" integer) is_key indexed
      ∷ attribute (required "key" (varchar 150)) plain unique_index
      ∷ attribute (optional "value" text) plain bare
      ∷ [];
  table_args = [];
}

abbrev pub user_model : Model
user_model = record {
  tablename = "users";
  attributes =
      attribute (required "id" integer) is_key indexed
      ∷ attribute (required "username" (varchar 100)) plain unique_index
      ∷ attribute (required "display_name" (varchar 255)) plain bare
      ∷ attribute (required "password_hash" (varchar 255)) plain bare
      ∷ attribute (required "role" (varchar 50)) plain bare
      ∷ attribute (required "is_active" boolean) plain bare
      ∷ attribute (required "is_deleted" boolean) plain bare
      ∷ [];
  table_args = [];
}

abbrev pub audit_log_model : Model
audit_log_model = record {
  tablename = "audit_logs";
  attributes =
      attribute (required "id" integer) is_key indexed
      ∷ attribute (optional "user_id" integer) (refers "users" "id") bare
      ∷ attribute (optional "username" (varchar 100)) plain bare
      ∷ attribute (required "action" (varchar 150)) plain bare
      ∷ attribute (optional "details" text) plain bare
      ∷ attribute (optional "ip_address" (varchar 100)) plain bare
      ∷ [];
  table_args = [];
}

abbrev pub user_session_model : Model
user_session_model = record {
  tablename = "user_sessions";
  attributes =
      attribute (required "id" integer) is_key indexed
      ∷ attribute (required "user_id" integer) (refers "users" "id") indexed
      ∷ attribute (required "session_token_hash" (varchar 255)) plain unique_index
      ∷ attribute (required "expires_at" timestamp) plain bare
      ∷ attribute (optional "ip_address" (varchar 100)) plain bare
      ∷ attribute (optional "user_agent" (varchar 500)) plain bare
      ∷ [];
  table_args = [];
}

abbrev pub form_endpoint_model : Model
form_endpoint_model = record {
  tablename = "form_endpoints";
  attributes =
      attribute (required "id" integer) is_key indexed
      ∷ attribute (required "name" (varchar 255)) plain bare
      ∷ attribute (required "slug" (varchar 150)) plain unique_index
      ∷ attribute (optional "description" text) plain bare
      ∷ attribute (optional "owner_user_id" integer) (refers "users" "id") bare
      ∷ attribute (required "is_active" boolean) plain bare
      ∷ attribute (required "is_deleted" boolean) plain bare
      ∷ attribute (optional "success_redirect_url" text) plain bare
      ∷ attribute (optional "error_redirect_url" text) plain bare
      ∷ attribute (optional "allowed_origins" text) plain bare
      ∷ attribute (optional "reply_to_field" (varchar 150)) plain bare
      ∷ attribute (required "email_subject" (varchar 255)) plain bare
      ∷ attribute (optional "email_template" text) plain bare
      ∷ attribute (required "smtp_host" (varchar 255)) plain bare
      ∷ attribute (required "smtp_port" integer) plain bare
      ∷ attribute (optional "smtp_username" (varchar 255)) plain bare
      ∷ attribute (optional "smtp_password" text) plain bare
      ∷ attribute (required "smtp_security" (varchar 50)) plain bare
      ∷ attribute (required "sender_email" (varchar 255)) plain bare
      ∷ attribute (optional "sender_name" (varchar 255)) plain bare
      ∷ attribute (required "cap_enabled" boolean) plain bare
      ∷ attribute (optional "cap_verify_url" text) plain bare
      ∷ attribute (optional "cap_site_key" (varchar 255)) plain bare
      ∷ attribute (optional "cap_secret_key" text) plain bare
      ∷ attribute (required "max_payload_kb" integer) plain bare
      ∷ attribute (required "rate_limit_enabled" boolean) plain bare
      ∷ attribute (required "rate_limit_requests" integer) plain bare
      ∷ attribute (required "rate_limit_window_seconds" integer) plain bare
      ∷ [];
  table_args = [];
}

abbrev pub form_endpoint_recipient_model : Model
form_endpoint_recipient_model = record {
  tablename = "form_endpoint_recipients";
  attributes =
      attribute (required "id" integer) is_key indexed
      ∷ attribute (required "endpoint_id" integer) (refers "form_endpoints" "id") indexed
      ∷ attribute (required "email" (varchar 255)) plain bare
      ∷ attribute (optional "display_name" (varchar 255)) plain bare
      ∷ attribute (required "recipient_type" (varchar 20)) plain bare
      ∷ attribute (required "is_active" boolean) plain bare
      ∷ [];
  table_args = [];
}

abbrev pub endpoint_delivery_log_model : Model
endpoint_delivery_log_model = record {
  tablename = "endpoint_delivery_logs";
  attributes =
      attribute (required "id" integer) is_key indexed
      ∷ attribute (required "endpoint_id" integer) (refers "form_endpoints" "id") indexed
      ∷ attribute (required "success" boolean) plain bare
      ∷ attribute (optional "ip_address" (varchar 100)) plain bare
      ∷ attribute (optional "origin" (varchar 500)) plain bare
      ∷ attribute (optional "user_agent" (varchar 500)) plain bare
      ∷ attribute (required "cap_verified" boolean) plain bare
      ∷ attribute (optional "smtp_host" (varchar 255)) plain bare
      ∷ attribute (optional "smtp_port" integer) plain bare
      ∷ attribute (optional "sender_email" (varchar 255)) plain bare
      ∷ attribute (optional "recipient_summary" text) plain bare
      ∷ attribute (optional "payload_size_bytes" integer) plain bare
      ∷ attribute (optional "error_message" text) plain bare
      ∷ attribute (optional "delivery_job_id" integer) plain indexed
      ∷ attribute (optional "delivery_status" (varchar 30)) plain bare
      ∷ [];
  table_args = [];
}

abbrev pub rate_limit_bucket_model : Model
rate_limit_bucket_model = record {
  tablename = "rate_limit_buckets";
  attributes =
      attribute (required "id" integer) is_key bare
      ∷ attribute (required "scope" (varchar 150)) plain indexed
      ∷ attribute (required "subject_key" (varchar 64)) plain bare
      ∷ attribute (required "window_start" timestamp) plain bare
      ∷ attribute (required "request_count" integer) plain bare
      ∷ attribute (required "expires_at" timestamp) plain indexed
      ∷ [];
  table_args =
      unique_key "uq_rate_limit_bucket" ("scope" ∷ "subject_key" ∷ "window_start" ∷ []) ∷ [];
}

abbrev pub email_delivery_job_model : Model
email_delivery_job_model = record {
  tablename = "email_delivery_jobs";
  attributes =
      attribute (required "id" integer) is_key bare
      ∷ attribute (optional "endpoint_id" integer) (nulled_by "form_endpoints" "id") indexed
      ∷ attribute (optional "encrypted_payload" text) plain bare
      ∷ attribute (required "status" (varchar 30)) plain indexed
      ∷ attribute (required "attempts" integer) plain bare
      ∷ attribute (required "max_attempts" integer) plain bare
      ∷ attribute (required "available_at" timestamp) plain indexed
      ∷ attribute (optional "locked_at" timestamp) plain bare
      ∷ attribute (optional "locked_by" (varchar 100)) plain bare
      ∷ attribute (optional "delivered_at" timestamp) plain bare
      ∷ attribute (optional "terminal_at" timestamp) plain indexed
      ∷ attribute (optional "last_error" text) plain bare
      ∷ [];
  table_args = [];
}

abbrev pub target_metadata : Catalog
target_metadata =
    schema_of setting_model
    ∷ schema_of user_model
    ∷ schema_of audit_log_model
    ∷ schema_of user_session_model
    ∷ schema_of form_endpoint_model
    ∷ schema_of form_endpoint_recipient_model
    ∷ schema_of endpoint_delivery_log_model
    ∷ schema_of rate_limit_bucket_model
    ∷ schema_of email_delivery_job_model
    ∷ []
