-- ===== src/Communication.antt =====
-- Conversations, messages, internal notes and attachments of tickets:
-- repositories/communication_repo.py, services/communication_service.py and
-- api/v1/communications.py.
pub mod Filename
pub mod Repo
pub mod Service
pub mod Attachments
pub mod Router
pub mod Names
pub mod Limits
pub mod Change
pub mod Endings
pub mod Calls
pub mod Routes
pub mod Quota
pub mod Rooted
pub mod Downloads
