-- ===== src/Crm.antt =====
-- Customer records: models/client.py, repositories/client_repo.py, services/client_service.py,
-- api/v1/clients.py and api/v1/organizations.py.
pub mod Repo
pub mod Service
pub mod Router
pub mod Integrity
