-- ===== src/Migrations/View.antt =====
-- What two catalogs have in common where they agree: tables, columns, keys and indexes by name, with
-- the order of their declaration and the defaults of the server forgotten.
use billsons_forms.Base.{order_by, List, Text, [], none, ◌∷◌}
use billsons_forms.Origins.{text_ltb}
use billsons_forms.Migrations.{Catalog, Column, Index, Reference, TableSchema}

abbrev pub sort_by {ℓ} : {A : Type ℓ} → (A → Text) → List A → List A
sort_by key xs = order_by (λ a b. text_ltb (key a) (key b)) xs

abbrev pub undefaulted : List Column → List Column
undefaulted [] = []
undefaulted (c ∷ cs) = record c { server_default = none } ∷ undefaulted cs

abbrev pub view_table : TableSchema → TableSchema
view_table t = record t {
  columns = sort_by (λ (c : Column). c.name) (undefaulted t.columns);
  references = sort_by (λ (r : Reference). r.name) t.references;
  uniques = sort_by (λ (u : Text × List Text). u.0) t.uniques;
  indexes = sort_by (λ (i : Index). i.name) t.indexes;
}

abbrev pub view_tables : Catalog → Catalog
view_tables [] = []
view_tables (t ∷ catalog) = view_table t ∷ view_tables catalog

abbrev pub view : Catalog → Catalog
view catalog = sort_by (λ (t : TableSchema). t.name) (view_tables catalog)
