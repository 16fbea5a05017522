-- ===== src/Storage/Audit/Tests.antt =====
-- An audit log of three events, and the theorem on its pages.
use unified_ai_orchestrator.Base.{ℕ, ◌≡◌, refl, Bool, true, false, none, some, List, [], ◌∷◌}
use unified_ai_orchestrator.Base.Text.{Text, codes}
use unified_ai_orchestrator.Storage.Audit.{
  AuditEventType, auth_failure, auth_success, AuditEvent, AuditRow, AuditTable, event_value,
  log_audit_event, log_event, is_column, fits, get_audit_logs,
}

abbrev by : Text → AuditEvent Text
by name = record {
  user_id = some name;
  resource_type = none;
  resource_id = none;
  details = some [];
  ip_address = none;
  user_agent = none;
}

is_filled : Text → Bool
is_filled [] = false
is_filled (c ∷ t) = true

no_events : AuditTable Text
no_events = record { next_id = 1; rows = [] }

abbrev logged : Bool → AuditEventType → Text → ℕ → AuditTable Text → AuditTable Text
logged reached event_type name now s = log_event is_filled reached event_type (by name) now s

abbrev events : AuditTable Text
events = logged true auth_success (codes "b") 7 (
    logged false auth_failure (codes "a") 6
      (logged true auth_failure (codes "a") 5 (logged true auth_failure (codes "a") 4 no_events)))

program : Unit {0}
unfolding event_value log_audit_event log_event is_column fits get_audit_logs
program = tt

abbrev times : List (AuditRow Text) → List ℕ
times [] = []
times (r ∷ rows) = r.created_at ∷ times rows

-- The event of the time 6 met a storage that does not work.
all_events : times (get_audit_logs none none 100 0 events) ≡ 7 ∷ 5 ∷ 4 ∷ []
unfolding program no_events is_filled
all_events = refl

failures :
    times (get_audit_logs (some (codes "a")) (some (codes "auth.failure")) 1 1 events) ≡ 4 ∷ []
unfolding program no_events is_filled
failures = refl
