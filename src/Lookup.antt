-- ===== src/Lookup.antt =====
-- The lookup tables of a workspace, queues, ticket categories and tags:
-- repositories/ticket_lookup_repo.py, services/ticket_lookup_service.py, api/v1/queues.py,
-- api/v1/ticket_categories.py and api/v1/tags.py.
pub mod Repo
pub mod Service
pub mod Router
pub mod Updates
