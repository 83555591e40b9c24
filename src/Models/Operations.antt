-- ===== src/Models/Operations.antt =====
-- models/operations.py: support tasks, SLA policies, the SLA clock of a ticket, notifications.
use support_endpoint.Prelude.{ℕ, String, Bool, Option}
use support_endpoint.Models.Enums.{TicketPriority, TaskStatus, NotificationType}

pub record SupportTask : Type 0 where
  pub id : ℕ
  pub workspace_id : ℕ
  pub ticket_id : ℕ
  pub creator_user_id : ℕ
  pub assignee_user_id : Option ℕ
  pub title : String
  pub description : String
  pub status : TaskStatus
  pub due_at : Option ℕ
  pub completed_at : Option ℕ
  pub created_at : ℕ

pub record SlaPolicy : Type 0 where
  pub id : ℕ
  pub workspace_id : ℕ
  pub priority : TicketPriority
  pub first_response_minutes : ℕ
  pub resolution_minutes : ℕ
  pub warning_minutes_before : ℕ
  pub is_active : Bool

pub record TicketSla : Type 0 where
  pub id : ℕ
  pub workspace_id : ℕ
  pub ticket_id : ℕ
  pub policy_id : ℕ
  pub first_response_due_at : ℕ
  pub resolution_due_at : ℕ
  pub first_response_at : Option ℕ
  pub resolved_at : Option ℕ
  pub first_response_warning_sent : Bool
  pub resolution_warning_sent : Bool
  pub first_response_breached : Bool
  pub resolution_breached : Bool

pub record Notification : Type 0 where
  pub id : ℕ
  pub workspace_id : ℕ
  pub user_id : ℕ
  pub ticket_id : Option ℕ
  pub type : NotificationType
  pub title : String
  pub body : String
  pub read_at : Option ℕ
  pub created_at : ℕ
