-- ===== src/Models/Audit.antt =====
-- models/audit.py, and the metadata that repositories/audit_repo.py writes. The column
-- `metadata_json` is kept as the dict that its JSON text encodes.
use support_endpoint.Prelude.{ℕ, String, Option, List}
use support_endpoint.Models.Enums.{TicketStatus, TicketPriority, TaskStatus}

-- The values that the program puts into a metadata dict or names a resource by.
pub data Meta : Type 0 where
  null : Meta
  key : ℕ → Meta
  text : String → Meta
  size : ℕ → Meta
  status : TicketStatus → Meta
  priority : TicketPriority → Meta
  task_status : TaskStatus → Meta

pub record AuditEvent : Type 0 where
  pub id : ℕ
  pub workspace_id : Option ℕ
  pub actor_user_id : Option ℕ
  pub action : String
  pub resource_type : String
  pub resource_id : Meta
  pub correlation_id : String
  pub result : String
  pub metadata : List (String × Meta)
  pub created_at : ℕ
