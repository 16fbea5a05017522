-- ===== src/Migrations.antt =====
-- python-glue/unified_ai/migrations/sqlite.py: the runner of the schema migrations. The schema and
-- what a statement does to it (`none` where the database raises) are parameters. Every operation
-- starts with `ensure_migrations_table`, which opens the connection and creates the table, so the
-- table is there and the connection is open.
pub mod Up
pub mod Down
pub mod Complete
mod Tests
use Prim.Native.String.{String}
use unified_ai_orchestrator.Base.{
  ℕ, suc, ◌+◌, Bool, true, false, Option, none, some, List, [], ◌∷◌, ◌++◌, map, reverse, any,
  select, ◌&&◌, ◌||◌, not, ltb, leb, ◌==◌, max, if◌then◌else◌,
}
use unified_ai_orchestrator.Base.Text.{Text}
use unified_ai_orchestrator.Context.Compression.{strip}

pub record Migration : Type 0 where
  pub version : ℕ
  pub name : String
  pub up_sql : Text
  pub down_sql : Text

-- A row of `schema_migrations`.
abbrev pub Row : Type 0
Row = ℕ × String

pub record Store (D : Type 0) : Type 0 where
  pub schema : D
  pub applied : List Row

-- How a run ends.
pub data Ended : Type 0 where
  done : Ended
  gap : ℕ → Ended
  nothing_to_rollback : Ended
  database_error : Ended

-- `add_migration`: the list is in order, so sorting it, stably, after `append` is to insert behind
-- the versions that are not larger.
unfoldable pub add_migration : Migration → List Migration → List Migration
add_migration m [] = m ∷ []
add_migration m (k ∷ ms) =
    let rest = add_migration m ms in if leb k.version m.version then k ∷ rest else m ∷ k ∷ ms

-- `SELECT MAX(version)`
unfoldable pub max_version : List Row → Option ℕ
max_version [] = none
max_version ((v, name) ∷ rows) = elim (max_version rows) [ none ↦ some v | some w ↦ some (max v w) ]

nonzero : Option ℕ → Option ℕ
nonzero none = none
nonzero (some v) = if v == 0 then none else some v

-- `get_current_version`
unfoldable pub get_current_version : List Row → Option ℕ
unfolding nonzero
get_current_version rows = nonzero (max_version rows)

-- `version in applied`
abbrev pub is_applied : ℕ → List Row → Bool
is_applied v rows = any (λ (w, name). w == v) rows

-- `max([m["version"] for m in self.migrations]) if self.migrations else 0`
unfoldable pub latest : List Migration → ℕ
latest [] = 0
latest (m ∷ ms) = max m.version (latest ms)

-- `target_version or ...`, where the version 0 is false.
unfoldable pub target_of : Option ℕ → List Migration → ℕ
target_of none ms = latest ms
target_of (some v) ms = if v == 0 then latest ms else v

-- `INSERT INTO schema_migrations`, after the statements were committed: a version that is there
-- already raises, and the rollback finds only the insertion to undo.
record_version : {D : Type 0} → Migration → List Row → D → Ended × Store D
record_version m rows d =
    if is_applied m.version rows
    then (database_error, record { schema = d; applied = rows })
    else (done, record { schema = d; applied = rows ++ (m.version, m.name) ∷ [] })

-- One migration in its transaction.
apply_up : {D : Type 0} → Migration → List Row → D → Option D → Ended × Store D
apply_up m rows d none = (database_error, record { schema = d; applied = rows })
apply_up m rows d (some after) = record_version m rows after

is_next : Option ℕ → ℕ → Bool
is_next none v = true
is_next (some c) v = v == suc c

expected : Option ℕ → ℕ
expected none = 0
expected (some c) = suc c

continue_with : {D : Type 0} → Ended → Store D → Ended × Store D → Ended × Store D
continue_with done s rest = rest
continue_with (gap v) s rest = (gap v, s)
continue_with nothing_to_rollback s rest = (nothing_to_rollback, s)
continue_with database_error s rest = (database_error, s)

remove : ℕ → List Row → List Row
remove v [] = []
remove v ((w, name) ∷ rows) = let rest = remove v rows in if w == v then rest else (w, name) ∷ rest

-- `migrations_to_rollback`
abbrev pub to_rollback : List Migration → ℕ → ℕ → List Migration
to_rollback ms target_version current =
    select (λ m. ltb target_version m.version && leb m.version current) (reverse ms)

module _ {D : Type 0} (run : Text → D → Option D) where
  -- The loop of `migrate_up`; `before` is the table when it was read.
  unfoldable pub up_loop : ℕ → List Row → List Migration → Option ℕ → Store D → Ended × Store D
  unfolding record_version apply_up is_next expected continue_with
  up_loop target before [] current s = (done, s)
  up_loop target before (m ∷ ms) current s =
      let skipped = up_loop target before ms current s in
      let (ended, after) = apply_up m s.applied s.schema (run m.up_sql s.schema) in
      let rest = up_loop target before ms (some m.version) after in
      if leb m.version target && not (is_applied m.version before)
      then (if is_next current m.version
          then continue_with ended after rest
          else (gap (expected current), s))
      else skipped

  -- `migrate_up`
  unfoldable pub migrate_up : List Migration → Option ℕ → Store D → Ended × Store D
  migrate_up ms target_version s =
      up_loop (target_of target_version ms) s.applied ms (get_current_version s.applied) s

  -- The loop of `migrate_down`.
  unfoldable pub down_loop : List Migration → Store D → Ended × Store D
  unfolding remove
  down_loop [] s = (done, s)
  down_loop (m ∷ ms) s = elim (run m.down_sql s.schema) [
    | none ↦ (database_error, s)
    | some after ↦ down_loop ms (record { schema = after; applied = remove m.version s.applied })
  ]

  -- `migrate_down`
  unfoldable pub migrate_down : List Migration → ℕ → Store D → Ended × Store D
  migrate_down ms target_version s = elim (get_current_version s.applied) [
    | none ↦ (nothing_to_rollback, s)
    | some current ↦ down_loop (to_rollback ms target_version current) s
  ]

-- `status`
unfoldable pub status : List Migration → List Row → List (ℕ × String × Bool)
status ms rows = map (λ m. (m.version, m.name, is_applied m.version rows)) ms
