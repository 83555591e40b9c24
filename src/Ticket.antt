-- ===== src/Ticket.antt =====
-- The service desk's tickets: models/ticket_enums.py, repositories/ticket_repo.py,
-- services/ticket_service.py and api/v1/tickets.py.
pub mod Status
pub mod Repo
pub mod Service
pub mod Router
pub mod Calls
pub mod Step
pub mod Rows
pub mod Validation
pub mod Refines
pub mod Routes
pub mod Permission
pub mod Server
pub mod Keys
pub mod Isolation
pub mod Graph
pub mod Lifecycle
pub mod Integrity
pub mod Records
pub mod Changes
pub mod Entries
pub mod Instants
pub mod History
pub mod Tags
