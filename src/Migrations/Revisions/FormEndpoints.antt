-- ===== src/Migrations/Revisions/FormEndpoints.antt =====
-- alembic/versions/a53aafd61291_add_form_endpoint_tables.py
use billsons_forms.Base.{List, [], ◌∷◌, lit, some, true, false}
use billsons_forms.Migrations.{
  Operation, Revision, boolean, create_index, create_table, drop_index, drop_table, foreign_key,
  integer, optional, primary_key, required, text, timestamps, varchar,
}

abbrev upgrade : List Operation
upgrade =
    create_table "form_endpoints"
      (required "id" integer
        ∷ required "name" (varchar 255)
        ∷ required "slug" (varchar 150)
        ∷ optional "description" text
        ∷ optional "owner_user_id" integer
        ∷ required "is_active" boolean
        ∷ required "is_deleted" boolean
        ∷ optional "success_redirect_url" text
        ∷ optional "error_redirect_url" text
        ∷ optional "allowed_origin" (varchar 500)
        ∷ optional "reply_to_field" (varchar 150)
        ∷ required "email_subject" (varchar 255)
        ∷ optional "email_template" text
        ∷ required "smtp_host" (varchar 255)
        ∷ required "smtp_port" integer
        ∷ optional "smtp_username" (varchar 255)
        ∷ optional "smtp_password" text
        ∷ required "smtp_security" (varchar 50)
        ∷ required "sender_email" (varchar 255)
        ∷ optional "sender_name" (varchar 255)
        ∷ required "cap_enabled" boolean
        ∷ optional "cap_verify_url" text
        ∷ optional "cap_site_key" (varchar 255)
        ∷ optional "cap_secret_key" text
        ∷ required "max_payload_kb" integer
        ∷ timestamps)
      (foreign_key "owner_user_id" "users" "id" ∷ primary_key "id" ∷ [])
    ∷ create_index "ix_form_endpoints_id" "form_endpoints" "id" false
    ∷ create_index "ix_form_endpoints_slug" "form_endpoints" "slug" true
    ∷ create_table "form_endpoint_recipients"
        (required "id" integer
          ∷ required "endpoint_id" integer
          ∷ required "email" (varchar 255)
          ∷ optional "display_name" (varchar 255)
          ∷ required "recipient_type" (varchar 20)
          ∷ required "is_active" boolean
          ∷ timestamps)
        (foreign_key "endpoint_id" "form_endpoints" "id" ∷ primary_key "id" ∷ [])
    ∷ create_index "ix_form_endpoint_recipients_endpoint_id" "form_endpoint_recipients"
        "endpoint_id" false
    ∷ create_index "ix_form_endpoint_recipients_id" "form_endpoint_recipients" "id" false
    ∷ create_table "form_submissions"
        (required "id" integer
          ∷ required "endpoint_id" integer
          ∷ optional "ip_address" (varchar 100)
          ∷ optional "user_agent" (varchar 500)
          ∷ optional "origin" (varchar 500)
          ∷ required "payload_json" text
          ∷ optional "reply_to_email" (varchar 255)
          ∷ required "cap_verified" boolean
          ∷ required "was_accepted" boolean
          ∷ optional "rejection_reason" text
          ∷ optional "payload_size_bytes" integer
          ∷ timestamps)
        (foreign_key "endpoint_id" "form_endpoints" "id" ∷ primary_key "id" ∷ [])
    ∷ create_index "ix_form_submissions_endpoint_id" "form_submissions" "endpoint_id" false
    ∷ create_index "ix_form_submissions_id" "form_submissions" "id" false
    ∷ create_table "email_delivery_logs"
        (required "id" integer
          ∷ required "submission_id" integer
          ∷ required "endpoint_id" integer
          ∷ required "success" boolean
          ∷ optional "smtp_host" (varchar 255)
          ∷ optional "smtp_port" integer
          ∷ optional "sender_email" (varchar 255)
          ∷ optional "recipient_summary" text
          ∷ optional "error_message" text
          ∷ timestamps)
        (foreign_key "endpoint_id" "form_endpoints" "id"
          ∷ foreign_key "submission_id" "form_submissions" "id"
          ∷ primary_key "id"
          ∷ [])
    ∷ create_index "ix_email_delivery_logs_endpoint_id" "email_delivery_logs" "endpoint_id" false
    ∷ create_index "ix_email_delivery_logs_id" "email_delivery_logs" "id" false
    ∷ create_index "ix_email_delivery_logs_submission_id" "email_delivery_logs" "submission_id"
        false
    ∷ []

abbrev downgrade : List Operation
downgrade =
    drop_index "ix_email_delivery_logs_submission_id" "email_delivery_logs"
    ∷ drop_index "ix_email_delivery_logs_id" "email_delivery_logs"
    ∷ drop_index "ix_email_delivery_logs_endpoint_id" "email_delivery_logs"
    ∷ drop_table "email_delivery_logs"
    ∷ drop_index "ix_form_submissions_id" "form_submissions"
    ∷ drop_index "ix_form_submissions_endpoint_id" "form_submissions"
    ∷ drop_table "form_submissions"
    ∷ drop_index "ix_form_endpoint_recipients_id" "form_endpoint_recipients"
    ∷ drop_index "ix_form_endpoint_recipients_endpoint_id" "form_endpoint_recipients"
    ∷ drop_table "form_endpoint_recipients"
    ∷ drop_index "ix_form_endpoints_slug" "form_endpoints"
    ∷ drop_index "ix_form_endpoints_id" "form_endpoints"
    ∷ drop_table "form_endpoints"
    ∷ []

abbrev pub form_endpoints : Revision
form_endpoints = record {
  revision = lit "a53aafd61291";
  down_revision = some (lit "f62045a39b3b");
  upgrade = upgrade;
  downgrade = downgrade;
}
