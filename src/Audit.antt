-- ===== src/Audit.antt =====
-- repositories/audit_repo.py: the audit trail. Rows are only ever added.
use support_endpoint.Prelude.{ℕ, String, Option, some, List, push}
use support_endpoint.Models.{AuditEvent, Meta}
use support_endpoint.Session.{Action, ◌>>=◌, ◌>>◌, pure, modify, new_uuid, utcnow}

-- `AuditRepository.record`, with its keyword arguments in the order of the source. No caller
-- gives a correlation id.
unfoldable pub record_event :
    String → Option ℕ → Option ℕ → String → Meta → String → List (String × Meta) → Action AuditEvent
record_event action workspace_id actor_user_id resource_type resource_id result metadata = do
  i ← new_uuid
  t ← utcnow
  let event : AuditEvent = record {
    id = i;
    workspace_id = workspace_id;
    actor_user_id = actor_user_id;
    action = action;
    resource_type = resource_type;
    resource_id = resource_id;
    correlation_id = "";
    result = result;
    metadata = metadata;
    created_at = t;
  }
  modify (λ d. record d { audit_events = push event d.audit_events })
  pure event

-- What a service's call gives: an event of a workspace by a user, with the result "success".
abbrev pub record_success : String → ℕ → ℕ → String → ℕ → List (String × Meta) → Action AuditEvent
unfolding record_event
record_success action workspace_id actor_user_id resource_type resource_id metadata =
    record_event action (some workspace_id) (some actor_user_id) resource_type
      (Meta.key resource_id) "success" metadata
