-- ===== src/Migrations/Statements.antt =====
-- What a statement does to a catalog of tables, as PostgreSQL documents it, and when it is refused.
use billsons_forms.Base.{
  Bool, List, Option, String, Text, [], all, any, contains, delete_where, false, if◌then◌else◌, lit,
  nat_eq, none, not, some, text_eq, true, update_where, ◌&&◌, ◌++◌, ◌==◌, ◌∷◌,
}
use billsons_forms.Strings.{starts_with}
use billsons_forms.Migrations.{
  Catalog, Column, Constraint, Index, Operation, Reference, TableSchema, add_column, alter_column,
  create_foreign_key, create_index, create_table, drop_column, drop_constraint, drop_index,
  drop_table, foreign_key, table_of,
}

abbrev pub is_table : String → TableSchema → Bool
is_table name t = t.name == lit name

abbrev pub is_index : String → Index → Bool
is_index name i = i.name == lit name

abbrev pub is_column : Text → Column → Bool
is_column name c = c.name == name

abbrev pub is_reference : String → Reference → Bool
is_reference name r = r.name == lit name

abbrev pub has_index : String → TableSchema → Bool
has_index name t = any (is_index name) t.indexes

abbrev pub has_column : Text → TableSchema → Bool
has_column name t = any (is_column name) t.columns

-- A table that a foreign key of another table points to.
abbrev pub refers_to : String → TableSchema → Bool
refers_to name t =
    not (is_table name t) && any (λ (r : Reference). r.target == lit name) t.references

infixl 5 ◌>>=◌
abbrev pub ◌>>=◌ {ℓ κ} : {A : Type ℓ} {B : Type κ} → Option A → (A → Option B) → Option B
none >>= f = none
some a >>= f = f a

abbrev pub guard {ℓ} : {A : Type ℓ} → Bool → A → Option A
guard b a = if b then some a else none

abbrev pub onto : Catalog → Option TableSchema → Option Catalog
onto catalog none = none
onto catalog (some t) = some (t ∷ catalog)

abbrev pub under : TableSchema → Option Catalog → Option Catalog
under t none = none
under t (some catalog) = some (t ∷ catalog)

-- The first table with the name, changed, or none where there is no such table.
unfoldable pub alter : String → (TableSchema → Option TableSchema) → Catalog → Option Catalog
alter name f [] = none
alter name f (t ∷ catalog) =
    let rest = alter name f catalog in if is_table name t then onto catalog (f t) else under t rest

unfoldable pub remove : String → Catalog → Option Catalog
remove name [] = none
remove name (t ∷ catalog) =
    let rest = remove name catalog in if is_table name t then some catalog else under t rest

-- What dropping a column takes with it: the indexes, the foreign keys and the unique constraints on it.
abbrev pub without_column : String → TableSchema → TableSchema
without_column column t = record t {
  columns = delete_where (is_column (lit column)) t.columns;
  references = delete_where (λ (r : Reference). r.column == lit column) t.references;
  uniques = delete_where (λ (u : Text × List Text). contains (lit column) u.1) t.uniques;
  indexes = delete_where (λ (i : Index). i.column == lit column) t.indexes;
}

abbrev pub change : Operation → Catalog → Option Catalog
change (create_table name columns constraints) catalog =
    some (table_of name columns constraints ∷ catalog)
change (create_index name table column unique) catalog =
    alter table
      (λ t. guard (has_column (lit column) t) (record t {
        indexes = record { name = lit name; column = lit column; unique = unique } ∷ t.indexes;
      }))
      catalog
change (drop_table name) catalog = remove name catalog
change (drop_index name table) catalog =
    alter table
      (λ t.
        guard (has_index name t) (record t { indexes = delete_where (is_index name) t.indexes }))
      catalog
change (add_column table c) catalog =
    alter table
      (λ t. guard (not (has_column c.name t)) (record t { columns = t.columns ++ c ∷ [] })) catalog
change (drop_column table column) catalog =
    alter table (λ t. guard (has_column (lit column) t) (without_column column t)) catalog
change (drop_constraint name table) catalog =
    alter table
      (λ t.
        guard (any (is_reference name) t.references)
          (record t { references = delete_where (is_reference name) t.references }))
      catalog
change (alter_column table column nullable) catalog =
    alter table
      (λ t. guard (has_column (lit column) t) (record t {
        columns =
            update_where (is_column (lit column)) (λ (c : Column). record c { nullable = nullable })
              t.columns;
      }))
      catalog
change (create_foreign_key name table target column target_column set_null) catalog =
    alter table
      (λ t.
        guard (has_column (lit column) t && not (any (is_reference name) t.references)) (record t {
          references =
              record {
                name = lit name;
                column = lit column;
                target = lit target;
                target_column = lit target_column;
                set_null = set_null;
              }
              ∷ t.references;
        }))
      catalog

-- The names of tables and of indexes are taken once, and a table that others refer to stays.
abbrev pub clear : Operation → TableSchema → Bool
clear (create_table name columns constraints) t = not (is_table name t)
clear (create_index name table column unique) t = not (has_index name t)
clear (drop_table name) t = not (refers_to name t)
clear _ t = true

abbrev pub targets : List Constraint → List String
targets [] = []
targets (foreign_key column target target_column ∷ cs) = target ∷ targets cs
targets (_ ∷ cs) = targets cs

-- The tables that new foreign keys point to.
abbrev pub needs : Operation → List String
needs (create_table name columns constraints) = targets constraints
needs (create_foreign_key name table target column target_column set_null) = target ∷ []
needs _ = []

abbrev pub provided : List String → Catalog → Bool
provided [] catalog = true
provided (name ∷ names) catalog = any (is_table name) catalog && provided names catalog

-- A default that takes its values from a sequence.
abbrev names_sequence : Column → Bool
names_sequence c = elim c.server_default [
  | none ↦ false
  | some default ↦ starts_with default (lit "nextval(")
]

abbrev new_columns : Operation → List Column
new_columns (create_table name columns constraints) = columns
new_columns (add_column table c) = c ∷ []
new_columns _ = []

-- No revision creates a sequence but those behind the keys of its tables, which go with the tables. A
-- default that names one is refused.
unfoldable pub asks_sequence : Operation → Bool
asks_sequence operation = any names_sequence (new_columns operation)

unfoldable pub perform : Operation → Catalog → Option Catalog
perform operation catalog =
    if asks_sequence operation
    then none
    else if all (clear operation) catalog && provided (needs operation) catalog
    then change operation catalog
    else none

unfoldable pub perform_all : List Operation → Catalog → Option Catalog
perform_all [] catalog = some catalog
perform_all (operation ∷ operations) catalog = do
  next ← perform operation catalog
  perform_all operations next
