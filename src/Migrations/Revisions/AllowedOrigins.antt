-- ===== src/Migrations/Revisions/AllowedOrigins.antt =====
-- alembic/versions/6d12ba94b08e_change_allowed_origin_to_allowed_origins.py
use billsons_forms.Base.{List, [], ◌∷◌, lit, some}
use billsons_forms.Migrations.{
  Operation, Revision, add_column, drop_column, optional, text, varchar,
}

abbrev upgrade : List Operation
upgrade =
    add_column "form_endpoints" (optional "allowed_origins" text)
    ∷ drop_column "form_endpoints" "allowed_origin"
    ∷ []

abbrev downgrade : List Operation
downgrade =
    add_column "form_endpoints" (optional "allowed_origin" (varchar 500))
    ∷ drop_column "form_endpoints" "allowed_origins"
    ∷ []

abbrev pub allowed_origins : Revision
allowed_origins = record {
  revision = lit "6d12ba94b08e";
  down_revision = some (lit "a53aafd61291");
  upgrade = upgrade;
  downgrade = downgrade;
}
