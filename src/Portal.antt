-- ===== src/Portal.antt =====
-- The client portal: services/portal_service.py and api/v1/portal.py.
pub mod Service
pub mod Router
pub mod Reads
pub mod Messages
pub mod Links
