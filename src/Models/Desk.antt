-- ===== src/Models/Desk.antt =====
-- models/ticket.py: tickets, their assignments and tags, and the lookup tables of a workspace.
use support_endpoint.Prelude.{ℕ, String, Bool, Option}
use support_endpoint.Models.Enums.{TicketStatus, TicketPriority}

pub record Queue : Type 0 where
  pub id : ℕ
  pub workspace_id : ℕ
  pub name : String
  pub description : String
  pub is_active : Bool

pub record TicketCategory : Type 0 where
  pub id : ℕ
  pub workspace_id : ℕ
  pub name : String
  pub description : String
  pub is_active : Bool

pub record Tag : Type 0 where
  pub id : ℕ
  pub workspace_id : ℕ
  pub name : String
  pub color : String

pub record Ticket : Type 0 where
  pub id : ℕ
  pub workspace_id : ℕ
  pub client_id : ℕ
  pub creator_user_id : ℕ
  pub assignee_user_id : Option ℕ
  pub queue_id : Option ℕ
  pub category_id : Option ℕ
  pub subject : String
  pub description : String
  pub status : TicketStatus
  pub priority : TicketPriority
  pub created_at : ℕ

pub record TicketAssignment : Type 0 where
  pub id : ℕ
  pub workspace_id : ℕ
  pub ticket_id : ℕ
  pub assignee_user_id : Option ℕ
  pub assigned_by_user_id : ℕ
  pub created_at : ℕ

pub record TicketTag : Type 0 where
  pub id : ℕ
  pub ticket_id : ℕ
  pub tag_id : ℕ
