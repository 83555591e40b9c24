-- ===== src/Workspaces.antt =====
-- Workspaces: repositories/workspace_repo.py, services/workspace_service.py and
-- api/v1/workspaces.py. The read of a membership is in Authz.antt.
pub mod Decimal
pub mod Slugify
pub mod Repo
pub mod Slug
pub mod Service
pub mod Creation
