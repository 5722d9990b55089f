-- ===== src/Migrations/Revisions/DeliveryLogs.antt =====
-- alembic/versions/e5a669540334_replace_submission_storage_with_.py
use billsons_forms.Base.{List, [], ◌∷◌, lit, some, false}
use billsons_forms.Migrations.{
  Operation, Revision, boolean, create_index, create_table, drop_index, drop_table, foreign_key,
  integer, optional, primary_key, required, text, timestamps, varchar, with_default,
}

abbrev upgrade : List Operation
upgrade =
    create_table "endpoint_delivery_logs"
      (required "id" integer
        ∷ required "endpoint_id" integer
        ∷ required "success" boolean
        ∷ optional "ip_address" (varchar 100)
        ∷ optional "origin" (varchar 500)
        ∷ optional "user_agent" (varchar 500)
        ∷ required "cap_verified" boolean
        ∷ optional "smtp_host" (varchar 255)
        ∷ optional "smtp_port" integer
        ∷ optional "sender_email" (varchar 255)
        ∷ optional "recipient_summary" text
        ∷ optional "payload_size_bytes" integer
        ∷ optional "error_message" text
        ∷ timestamps)
      (foreign_key "endpoint_id" "form_endpoints" "id" ∷ primary_key "id" ∷ [])
    ∷ create_index "ix_endpoint_delivery_logs_endpoint_id" "endpoint_delivery_logs" "endpoint_id"
        false
    ∷ create_index "ix_endpoint_delivery_logs_id" "endpoint_delivery_logs" "id" false
    ∷ drop_index "ix_email_delivery_logs_endpoint_id" "email_delivery_logs"
    ∷ drop_index "ix_email_delivery_logs_id" "email_delivery_logs"
    ∷ drop_index "ix_email_delivery_logs_submission_id" "email_delivery_logs"
    ∷ drop_table "email_delivery_logs"
    ∷ drop_index "ix_form_submissions_endpoint_id" "form_submissions"
    ∷ drop_index "ix_form_submissions_id" "form_submissions"
    ∷ drop_table "form_submissions"
    ∷ []

abbrev downgrade : List Operation
downgrade =
    create_table "form_submissions"
      (with_default "nextval('form_submissions_id_seq'::regclass)" (required "id" integer)
        ∷ required "endpoint_id" integer
        ∷ optional "ip_address" (varchar 100)
        ∷ optional "user_agent" (varchar 500)
        ∷ optional "origin" (varchar 500)
        ∷ required "payload_json" text
        ∷ optional "reply_to_email" (varchar 255)
        ∷ required "cap_verified" boolean
        ∷ required "was_accepted" boolean
        ∷ optional "rejection_reason" text
        ∷ optional "payload_size_bytes" integer
        ∷ timestamps)
      (foreign_key "endpoint_id" "form_endpoints" "id" ∷ primary_key "id" ∷ [])
    ∷ create_index "ix_form_submissions_id" "form_submissions" "id" false
    ∷ create_index "ix_form_submissions_endpoint_id" "form_submissions" "endpoint_id" false
    ∷ create_table "email_delivery_logs"
        (required "id" integer
          ∷ required "submission_id" integer
          ∷ required "endpoint_id" integer
          ∷ required "success" boolean
          ∷ optional "smtp_host" (varchar 255)
          ∷ optional "smtp_port" integer
          ∷ optional "sender_email" (varchar 255)
          ∷ optional "recipient_summary" text
          ∷ optional "error_message" text
          ∷ timestamps)
        (foreign_key "endpoint_id" "form_endpoints" "id"
          ∷ foreign_key "submission_id" "form_submissions" "id"
          ∷ primary_key "id"
          ∷ [])
    ∷ create_index "ix_email_delivery_logs_submission_id" "email_delivery_logs" "submission_id"
        false
    ∷ create_index "ix_email_delivery_logs_id" "email_delivery_logs" "id" false
    ∷ create_index "ix_email_delivery_logs_endpoint_id" "email_delivery_logs" "endpoint_id" false
    ∷ drop_index "ix_endpoint_delivery_logs_id" "endpoint_delivery_logs"
    ∷ drop_index "ix_endpoint_delivery_logs_endpoint_id" "endpoint_delivery_logs"
    ∷ drop_table "endpoint_delivery_logs"
    ∷ []

abbrev pub delivery_logs : Revision
delivery_logs = record {
  revision = lit "e5a669540334";
  down_revision = some (lit "6d12ba94b08e");
  upgrade = upgrade;
  downgrade = downgrade;
}
