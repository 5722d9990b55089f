-- ===== src/Migrations.antt =====
-- alembic/versions/*.py: the statements that the revisions issue, and the tables that they are about. Of
-- the database only the catalog is described, not the rows; `autoincrement` and the sequences behind
-- the keys are left out, so that a default which names a sequence finds none.
pub mod Statements
pub mod Revisions
pub mod Metadata
pub mod View
pub mod Frame
pub mod Laws
mod Examples
use billsons_forms.Base.{
  Bool, List, Option, String, Text, [], false, lit, none, some, true, ℕ, ◌++◌, ◌∷◌,
}

-- `sa.String(n)` and `sa.VARCHAR(n)`, `sa.DateTime(timezone=True)` and
-- `postgresql.TIMESTAMP(timezone=True)` are the same types of the database.
pub data SqlType : Type 0 where
  integer boolean text timestamp : SqlType
  varchar : ℕ → SqlType

pub record Column : Type 0 where
  pub name : Text
  pub type : SqlType
  pub nullable : Bool
  pub server_default : Option Text

-- A foreign key of one column.
pub record Reference : Type 0 where
  pub name : Text
  pub column : Text
  pub target : Text
  pub target_column : Text
  pub set_null : Bool

pub record Index : Type 0 where
  pub name : Text
  pub column : Text
  pub unique : Bool

-- A primary key and a foreign key have the name that PostgreSQL gives them.
pub data Constraint : Type 0 where
  primary_key : String → Constraint
  foreign_key : (column target target_column : String) → Constraint
  unique_key : (name : String) → List String → Constraint

pub record TableSchema : Type 0 where
  pub name : Text
  pub columns : List Column
  pub primary : List Text
  pub references : List Reference
  pub uniques : List (Text × List Text)
  pub indexes : List Index

-- The tables of a database.
abbrev pub Catalog : Type 0
Catalog = List TableSchema

-- The calls of `op`. An inline `primary_key` or `ForeignKey` of a column is a constraint of its table.
pub data Operation : Type 0 where
  create_table : String → List Column → List Constraint → Operation
  create_index : (name table column : String) (unique : Bool) → Operation
  drop_table : String → Operation
  drop_index : (name table : String) → Operation
  add_column : String → Column → Operation
  drop_column : (table column : String) → Operation
  drop_constraint : (name table : String) → Operation
  alter_column : (table column : String) (nullable : Bool) → Operation
  create_foreign_key :
      (name table target column target_column : String) (set_null : Bool) → Operation

-- `sa.Column(name, type, nullable=False)`, and with `nullable=True`.
abbrev pub required : String → SqlType → Column
required name type = record {
  name = lit name;
  type = type;
  nullable = false;
  server_default = none;
}

abbrev pub optional : String → SqlType → Column
optional name type = record (required name type) { nullable = true }

abbrev pub with_default : String → Column → Column
with_default value c = record c { server_default = some (lit value) }

-- The two columns that every table ends with.
abbrev pub timestamps : List Column
timestamps =
    with_default "now()" (required "created_at" timestamp)
    ∷ with_default "now()" (required "updated_at" timestamp)
    ∷ []

-- What a file of alembic/versions declares.
pub record Revision : Type 0 where
  pub revision : Text
  pub down_revision : Option Text
  pub upgrade : List Operation
  pub downgrade : List Operation

abbrev pub lits : List String → List Text
lits [] = []
lits (s ∷ ss) = lit s ∷ lits ss

abbrev pub reference_of : Text → String → String → String → Reference
reference_of table column target target_column = record {
  name = table ++ lit "_" ++ lit column ++ lit "_fkey";
  column = lit column;
  target = lit target;
  target_column = lit target_column;
  set_null = false;
}

abbrev pub constrain : Constraint → TableSchema → TableSchema
constrain (primary_key column) t = record t { primary = lit column ∷ t.primary }
constrain (foreign_key column target target_column) t = record t {
  references = reference_of t.name column target target_column ∷ t.references;
}
constrain (unique_key name columns) t = record t { uniques = (lit name, lits columns) ∷ t.uniques }

abbrev pub constrained : List Constraint → TableSchema → TableSchema
constrained [] t = t
constrained (c ∷ cs) t = constrain c (constrained cs t)

abbrev pub table_of : String → List Column → List Constraint → TableSchema
table_of name columns constraints = constrained constraints (record {
  name = lit name;
  columns = columns;
  primary = [];
  references = [];
  uniques = [];
  indexes = [];
})
