-- ===== src/Models.antt =====
-- The rows of the database, one record for each table of apps/api/app/models.
-- Identifiers (uuid4 texts there) are numbers, which the program only compares. `updated_at` is
-- kept only where a query orders by it, and relationships are read by their foreign keys.
mod Enums
mod Identity
mod Crm
mod Desk
mod Communication
mod Operations
mod Audit
mod Knowledge
pub use Enums.{
  TicketStatus, TicketPriority, TaskStatus, NotificationType, ConversationChannel, MessageDirection,
}
unfoldable pub use Enums.{status_eq, priority_eq, channel_eq, direction_eq, task_status_eq}
pub use Enums.{status_eq_iff, priority_eq_iff}
pub use Identity.*
pub use Crm.*
pub use Desk.*
pub use Communication.*
pub use Operations.*
pub use Audit.*
pub use Knowledge.*
