-- ===== src/Migrations/Laws.antt =====
-- alembic/versions/*.py against app/db/models/*.py: where the revisions lead, and back.
use billsons_forms.Base.{
  Bool, List, Option, Option-cases, Text, [], any, ap, arith, delete_where, false, inl, inr,
  is_some, lit, none, order_by, put, refl, some, sym, text_beq, true, update_where, ◌++◌, ◌∙◌, ◌∷◌,
  ◌≡◌,
}
use billsons_forms.Strings.{starts_with}
use billsons_forms.Migrations.{Catalog, Operation, Revision}
use billsons_forms.Migrations.Statements.{alter, asks_sequence, perform, perform_all, remove}
use billsons_forms.Migrations.Frame.{is_free, perform_all-frame}
use billsons_forms.Migrations.Metadata.{target_metadata}
use billsons_forms.Migrations.Revisions.{history}
use billsons_forms.Migrations.Revisions.InitialSchema.{initial_schema}
use billsons_forms.Migrations.Revisions.FormEndpoints.{form_endpoints}
use billsons_forms.Migrations.Revisions.AllowedOrigins.{allowed_origins}
use billsons_forms.Migrations.Revisions.DeliveryLogs.{delivery_logs}
use billsons_forms.Migrations.Revisions.RateLimiting.{rate_limiting}
use billsons_forms.Migrations.Revisions.DeliveryQueue.{delivery_queue}
use billsons_forms.Migrations.Revisions.SnapshotKey.{snapshot_key}
use billsons_forms.Migrations.View.{view}
use billsons_forms.Origins.{text_ltb}

abbrev pub upgrades : List Revision → List Operation
upgrades [] = []
upgrades (r ∷ rs) = r.upgrade ++ upgrades rs

-- Every name that the revisions use is free in the tables of another program.
abbrev pub AreFree : List Revision → Catalog → Type 0
AreFree [] s = Unit
AreFree (r ∷ rs) s = (is_free r.upgrade s ≡ true) × (is_free r.downgrade s ≡ true) × AreFree rs s

-- Each revision names the one before it.
abbrev pub IsChain : Option Text → List Revision → Type 0
IsChain previous [] = Unit
IsChain previous (r ∷ rs) = (r.down_revision ≡ previous) × IsChain (some r.revision) rs

abbrev asks_any : List Operation → Bool
asks_any operations = any asks_sequence operations

-- Where none of its statements asks for a sequence, a downgrade succeeds and leads back to the same
-- tables.
abbrev pub Restores : Bool → Catalog → Catalog → Catalog → List Operation → Type 0
Restores true s own up downgrade = Unit
Restores false s own up downgrade =
    (down : Catalog) × (perform_all downgrade (up ++ s) ≡ some (down ++ s)) × (view down ≡ view own)

-- Each upgrade succeeds from where the one before it led, and its downgrade undoes it from there,
-- unless it asks for a sequence.
abbrev pub Undoes : Catalog → Catalog → List Revision → Type 0
Undoes s own [] = Unit
Undoes s own (r ∷ rs) =
    (up : Catalog) × (perform_all r.upgrade (own ++ s) ≡ some (up ++ s))
    × Restores (asks_any r.downgrade) s own up r.downgrade
    × Undoes s up rs

abbrev tables : Option Catalog → Catalog
tables none = []
tables (some catalog) = catalog

some-tables : (o : Option Catalog) → is_some o ≡ true → o ≡ some (tables o)
some-tables none h = absurd (ground (arith, h))
some-tables (some c) h = refl

-- A run of statements goes on from where its first part has led.
perform_all-append :
    (first later : List Operation) (c between end : Catalog)
    → perform_all first c ≡ some between
    → perform_all (first ++ later) c ≡ some end
    → perform_all later between ≡ some end
unfolding perform_all
perform_all-append [] later c between end h whole =
    ap (λ o. perform_all later (tables o)) (sym h) ∙ whole
perform_all-append (operation ∷ first) later c between end h whole =
    elim (Option-cases (perform operation c)) [
      | inl refused ↦ absurd (ground (arith, h, refused))
      | inr (next, done) ↦
          perform_all-append first later next between end (rw done at h) (rw done at whole)
    ]

-- The tables that statements make from none.
abbrev made : List Operation → Catalog
made done = tables (perform_all done [])

-- The same for one revision and the tables of this program alone, after the statements before it.
abbrev IsRestored : Bool → List Operation → Revision → Type 0
IsRestored true done r = Unit
IsRestored false done r =
    (is_some (perform_all ((done ++ r.upgrade) ++ r.downgrade) []) ≡ true)
    × (view (made ((done ++ r.upgrade) ++ r.downgrade)) ≡ view (made done))

abbrev IsUndone : List Operation → Revision → Type 0
IsUndone done r =
    (is_some (perform_all (done ++ r.upgrade) []) ≡ true) × IsRestored (asks_any r.downgrade) done r

abbrev Undone : List Operation → List Revision → Type 0
Undone done [] = Unit
Undone done (r ∷ rs) = IsUndone done r × Undone (done ++ r.upgrade) rs

initial_schema-IsUndone : IsUndone ([]) initial_schema
unfolding perform_all perform asks_sequence starts_with alter text_beq lit delete_where remove
    update_where order_by put text_ltb
initial_schema-IsUndone = (refl, (refl, refl))

form_endpoints-IsUndone : IsUndone ([] ++ initial_schema.upgrade) form_endpoints
unfolding perform_all perform asks_sequence starts_with alter text_beq lit delete_where remove
    update_where order_by put text_ltb
form_endpoints-IsUndone = (refl, (refl, refl))

allowed_origins-IsUndone :
    IsUndone (([] ++ initial_schema.upgrade) ++ form_endpoints.upgrade) allowed_origins
unfolding perform_all perform asks_sequence starts_with alter text_beq lit delete_where remove
    update_where order_by put text_ltb
allowed_origins-IsUndone = (refl, (refl, refl))

delivery_logs-IsUndone :
    IsUndone
      ((([] ++ initial_schema.upgrade) ++ form_endpoints.upgrade) ++ allowed_origins.upgrade)
      delivery_logs
unfolding perform_all perform asks_sequence starts_with alter text_beq lit delete_where remove
    update_where order_by put text_ltb
delivery_logs-IsUndone = (refl, tt)

rate_limiting-IsUndone :
    IsUndone
      (((([] ++ initial_schema.upgrade) ++ form_endpoints.upgrade) ++ allowed_origins.upgrade)
        ++ delivery_logs.upgrade)
      rate_limiting
unfolding perform_all perform asks_sequence starts_with alter text_beq lit delete_where remove
    update_where order_by put text_ltb
rate_limiting-IsUndone = (refl, (refl, refl))

delivery_queue-IsUndone :
    IsUndone
      ((((([] ++ initial_schema.upgrade) ++ form_endpoints.upgrade) ++ allowed_origins.upgrade)
          ++ delivery_logs.upgrade)
        ++ rate_limiting.upgrade)
      delivery_queue
unfolding perform_all perform asks_sequence starts_with alter text_beq lit delete_where remove
    update_where order_by put text_ltb
delivery_queue-IsUndone = (refl, (refl, refl))

snapshot_key-IsUndone :
    IsUndone
      (((((([] ++ initial_schema.upgrade) ++ form_endpoints.upgrade) ++ allowed_origins.upgrade)
            ++ delivery_logs.upgrade)
          ++ rate_limiting.upgrade)
        ++ delivery_queue.upgrade)
      snapshot_key
unfolding perform_all perform asks_sequence starts_with alter text_beq lit delete_where remove
    update_where order_by put text_ltb
snapshot_key-IsUndone = (refl, (refl, refl))

undone : Undone [] history
undone = (
  initial_schema-IsUndone,
  (
    form_endpoints-IsUndone,
    (
      allowed_origins-IsUndone,
      (
        delivery_logs-IsUndone,
        (rate_limiting-IsUndone, (delivery_queue-IsUndone, (snapshot_key-IsUndone, tt))),
      ),
    ),
  ),
)

restored :
    (asks : Bool) (s : Catalog) (done : List Operation) (own : Catalog) (r : Revision)
    → perform_all done [] ≡ some own
    → perform_all (done ++ r.upgrade) [] ≡ some (made (done ++ r.upgrade))
    → is_free r.downgrade s ≡ true
    → IsRestored asks done r
    → Restores asks s own (made (done ++ r.upgrade)) r.downgrade
restored true s done own r before upgraded free h = tt
restored false s done own r before upgraded free (down, same) =
    let downgraded = some-tables (perform_all ((done ++ r.upgrade) ++ r.downgrade) []) down in
    (
      made ((done ++ r.upgrade) ++ r.downgrade),
      perform_all-frame s r.downgrade _ _ free
          (perform_all-append (done ++ r.upgrade) r.downgrade [] _ _ upgraded downgraded),
      same ∙ ap (λ o. view (tables o)) before,
    )

Undone-Undoes :
    (s : Catalog) (done : List Operation) (own : Catalog) (revisions : List Revision)
    → perform_all done [] ≡ some own
    → AreFree revisions s
    → Undone done revisions
    → Undoes s own revisions
Undone-Undoes s done own [] before free h = tt
Undone-Undoes s done own (r ∷ rs) before (up_free, down_free, free) ((up, back), h) =
    let upgraded = some-tables (perform_all (done ++ r.upgrade) []) up in
    (
      made (done ++ r.upgrade),
      perform_all-frame s r.upgrade own _ up_free
          (perform_all-append done r.upgrade [] own _ before upgraded),
      restored (asks_any r.downgrade) s done own r before upgraded down_free back,
      Undone-Undoes s (done ++ r.upgrade) _ rs upgraded free h,
    )

-- In a database whose other tables leave the names of the revisions free and do not refer to these
-- tables, each of the seven upgrades succeeds in turn. Its downgrade then succeeds too, where none of
-- its columns takes its default from a sequence, and leads back to the same tables, columns, keys and
-- indexes, up to their order and the defaults of the server. Of the other downgrade, that of the
-- delivery logs, nothing is said.
pub downgrade-upgrade : (s : Catalog) → AreFree history s → Undoes s [] history
unfolding perform_all
downgrade-upgrade s free = Undone-Undoes s [] [] history refl free undone

migrated : perform_all (upgrades history) [] ≡ some (tables (perform_all (upgrades history) []))
unfolding perform_all perform asks_sequence starts_with alter text_beq lit delete_where remove
    update_where
migrated = refl

migrated-target_metadata : view (tables (perform_all (upgrades history) [])) ≡ view target_metadata
unfolding perform_all perform asks_sequence starts_with alter text_beq lit delete_where remove
    update_where order_by put text_ltb
migrated-target_metadata = refl

chain : IsChain none history
chain = (refl, (refl, (refl, (refl, (refl, (refl, (refl, tt)))))))

-- The revisions form one chain. In a database whose other tables leave the names of its upgrades free,
-- upgrading along it succeeds, keeps the other tables, and adds the tables of the models: with the same
-- columns of the same types, the same keys and the same indexes, up to their order and the defaults of
-- the server.
pub upgrade-target_metadata :
    (s : Catalog)
    → is_free (upgrades history) s ≡ true
    → IsChain none history
      × (own : Catalog) × (perform_all (upgrades history) s ≡ some (own ++ s))
      × (view own ≡ view target_metadata)
upgrade-target_metadata s free = (
  chain,
  tables (perform_all (upgrades history) []),
  perform_all-frame s (upgrades history) [] _ free migrated,
  migrated-target_metadata,
)
