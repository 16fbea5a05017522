-- ===== src/Migrations/Tests.antt =====
-- Runs of the migrations, and the theorems about them at concrete inputs. A schema is here the
-- number of statements that ran.
use unified_ai_orchestrator.Base.{
  ◌≡◌, refl, ℕ, suc, true, false, Option, none, some, [], ◌∷◌, ◌++◌, map, ◌&&◌, ◌||◌, not, leb,
  arith, ltb, if◌then◌else◌,
}
use unified_ai_orchestrator.Base.Text.{Text, codes}
use unified_ai_orchestrator.Migrations.{
  Migration, Store, done, gap, add_migration, max_version, get_current_version, is_applied, latest,
  target_of, up_loop, migrate_up, down_loop, migrate_down, status,
}
use unified_ai_orchestrator.Migrations.Up.{Grows, migrate_up-Grows}
use unified_ai_orchestrator.Migrations.Complete.{row, migrate_up-completes}
use unified_ai_orchestrator.Migrations.Down.{
  is_registered, migrate_down-completes, migrate_down-keeps,
}

program : Unit {0}
unfolding add_migration max_version get_current_version latest target_of up_loop migrate_up
    down_loop migrate_down status
program = tt

abbrev count : Text → ℕ → Option ℕ
count sql d = some (suc d)

-- A database on which only three statements succeed.
abbrev small : Text → ℕ → Option ℕ
small sql d = if ltb d 3 then some (suc d) else none

abbrev initial : Migration
initial = record { version = 1; name = "initial_schema"; up_sql = codes "a"; down_sql = codes "b" }

abbrev costs : Migration
costs = record { version = 2; name = "add_cost_tracking"; up_sql = codes "c"; down_sql = codes "d" }

abbrev security : Migration
security = record { version = 4; name = "add_security"; up_sql = codes "e"; down_sql = codes "f" }

abbrev first_applied : Store ℕ
first_applied = record { schema = 1; applied = (1, "initial_schema") ∷ [] }

abbrev both_applied : Store ℕ
both_applied = record {
  schema = 2;
  applied = (1, "initial_schema") ∷ (2, "add_cost_tracking") ∷ [];
}

in_order :
    add_migration initial (add_migration security (add_migration costs []))
    ≡ initial ∷ costs ∷ security ∷ []
unfolding program
in_order = refl

stops_at_gap :
    migrate_up count (initial ∷ costs ∷ security ∷ []) none first_applied ≡ (gap 3, both_applied)
unfolding program
stops_at_gap = refl

-- A target of zero is no target.
target_zero : migrate_up count (initial ∷ costs ∷ []) (some 0) first_applied ≡ (done, both_applied)
unfolding program
target_zero = refl

one_is_pending :
    status (initial ∷ costs ∷ []) first_applied.applied
    ≡ (1, "initial_schema", true) ∷ (2, "add_cost_tracking", false) ∷ []
unfolding program
one_is_pending = refl

migrate_up-Grows_example :
    Grows count first_applied.applied
      (migrate_up count (initial ∷ costs ∷ security ∷ []) none first_applied).1.applied
migrate_up-Grows_example =
    migrate_up-Grows count (initial ∷ costs ∷ security ∷ []) none first_applied
      (omega arith, (omega arith, (omega arith, tt))) (1, 1, omega arith, refl)

migrate_up-completes_example :
    ((migrate_up small (initial ∷ costs ∷ []) none first_applied).0 ≡ done)
    × ((migrate_up small (initial ∷ costs ∷ []) none first_applied).1.applied
        ≡ map row (initial ∷ []) ++ map row (costs ∷ []))
migrate_up-completes_example =
    migrate_up-completes small 0 (initial ∷ []) (costs ∷ []) first_applied (2, refl, tt)
      (refl, (refl, tt)) refl

migrate_down-completes_example :
    ((migrate_down small (initial ∷ costs ∷ []) 1 both_applied).0 ≡ done)
    × (is_applied 2 (migrate_down small (initial ∷ costs ∷ []) 1 both_applied).1.applied
        ≡ is_applied 2 both_applied.applied
          && (leb 2 1 || not (is_registered 2 (initial ∷ costs ∷ []))))
unfolding program
migrate_down-completes_example =
    migrate_down-completes small (initial ∷ costs ∷ []) 1 2 both_applied 2 (3, refl, tt) refl

migrate_down-keeps_example :
    is_applied 1 (migrate_down count (initial ∷ costs ∷ []) 1 both_applied).1.applied
    ≡ is_applied 1 both_applied.applied
migrate_down-keeps_example =
    migrate_down-keeps count (initial ∷ costs ∷ []) 1 both_applied 1 (omega arith)
