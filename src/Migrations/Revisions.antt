-- ===== src/Migrations/Revisions.antt =====
-- alembic/versions: the revisions, each after the one that its `down_revision` names.
pub mod InitialSchema
pub mod FormEndpoints
pub mod AllowedOrigins
pub mod DeliveryLogs
pub mod RateLimiting
pub mod DeliveryQueue
pub mod SnapshotKey
use billsons_forms.Base.{List, [], ◌∷◌}
use billsons_forms.Migrations.{Revision}
use billsons_forms.Migrations.Revisions.InitialSchema.{initial_schema}
use billsons_forms.Migrations.Revisions.FormEndpoints.{form_endpoints}
use billsons_forms.Migrations.Revisions.AllowedOrigins.{allowed_origins}
use billsons_forms.Migrations.Revisions.DeliveryLogs.{delivery_logs}
use billsons_forms.Migrations.Revisions.RateLimiting.{rate_limiting}
use billsons_forms.Migrations.Revisions.DeliveryQueue.{delivery_queue}
use billsons_forms.Migrations.Revisions.SnapshotKey.{snapshot_key}

abbrev pub history : List Revision
history =
    initial_schema ∷ form_endpoints ∷ allowed_origins ∷ delivery_logs ∷ rate_limiting
    ∷ delivery_queue ∷ snapshot_key ∷ []
