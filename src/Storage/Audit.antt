-- ===== src/Storage/Audit.antt =====
-- The table `audit_logs` of python-glue/unified_ai/storage/sqlite.py and the `AuditLogger` of
-- python-glue/unified_ai/security/audit.py that writes it. The details are a dict, of a type of their own,
-- and whether it has an entry; the text of JSON that the column holds is left out.
pub mod Pages
mod Tests
use unified_ai_orchestrator.Base.{
  ℕ, ◌+◌, Bool, true, false, Option, none, some, List, [], ◌∷◌, ◌++◌, map, select, ◌&&◌, take, drop,
  if◌then◌else◌,
}
use unified_ai_orchestrator.Base.Text.{Text, codes, same_text, has_text}
use unified_ai_orchestrator.Base.Rows.{newest_first}

pub data AuditEventType : Type 0 where
  auth_success auth_failure auth_logout permission_denied resource_access resource_create
        resource_update resource_delete config_change admin_action :
      AuditEventType

-- `event_type.value`
unfoldable pub event_value : AuditEventType → Text
event_value auth_success = codes "auth.success"
event_value auth_failure = codes "auth.failure"
event_value auth_logout = codes "auth.logout"
event_value permission_denied = codes "permission.denied"
event_value resource_access = codes "resource.access"
event_value resource_create = codes "resource.create"
event_value resource_update = codes "resource.update"
event_value resource_delete = codes "resource.delete"
event_value config_change = codes "config.change"
event_value admin_action = codes "admin.action"

-- What `log_event` is given with the type of the event.
pub record AuditEvent (D : Type 0) : Type 0 where
  pub user_id : Option Text
  pub resource_type : Option Text
  pub resource_id : Option Text
  pub details : Option D
  pub ip_address : Option Text
  pub user_agent : Option Text

pub record AuditRow (D : Type 0) : Type 0 where
  pub id : ℕ
  pub event_type : Text
  pub user_id : Option Text
  pub resource_type : Option Text
  pub resource_id : Option Text
  pub ip_address : Option Text
  pub user_agent : Option Text
  pub details : Option D
  pub created_at : ℕ

-- The table, with the number of the next row.
pub record AuditTable (D : Type 0) : Type 0 where
  pub next_id : ℕ
  pub rows : List (AuditRow D)

-- `if user_id:` and `user_id = ?`: an empty text is no condition.
unfoldable pub is_column : Option Text → Option Text → Bool
is_column wanted column = if has_text wanted then same_text column wanted else true

module _ {D : Type 0} (has_entry : D → Bool) where
  -- `json.dumps(details) if details else None`
  kept_details : Option D → Option D
  kept_details none = none
  kept_details (some d) = if has_entry d then some d else none

  -- `SQLiteStorage.log_audit_event`, at the time `now`.
  unfoldable pub log_audit_event : Text → AuditEvent D → ℕ → AuditTable D → AuditTable D
  unfolding kept_details
  log_audit_event event_type e now s =
      let row : AuditRow D = record {
        id = s.next_id;
        event_type = event_type;
        user_id = e.user_id;
        resource_type = e.resource_type;
        resource_id = e.resource_id;
        ip_address = e.ip_address;
        user_agent = e.user_agent;
        details = kept_details e.details;
        created_at = now;
      } in
      record { next_id = s.next_id + 1; rows = s.rows ++ row ∷ [] }

  -- `AuditLogger.log_event`, at the time `now`. `reached` is whether the storage works: its exceptions
  -- are caught and logged only.
  unfoldable pub log_event : Bool → AuditEventType → AuditEvent D → ℕ → AuditTable D → AuditTable D
  log_event reached event_type e now s =
      if reached then log_audit_event (event_value event_type) e now s else s

-- The WHERE clause.
unfoldable pub fits : {D : Type 0} → Option Text → Option Text → AuditRow D → Bool
unfolding is_column
fits user_id event_type r = is_column user_id r.user_id && is_column event_type (some r.event_type)

-- `SQLiteStorage.get_audit_logs`: `LIMIT ? OFFSET ?` of the newest.
unfoldable pub get_audit_logs :
    {D : Type 0} → Option Text → Option Text → ℕ → ℕ → AuditTable D → List (AuditRow D)
get_audit_logs user_id event_type limit offset s =
    take limit
      (drop offset (newest_first (λ r. r.created_at) [] (select (fits user_id event_type) s.rows)))
