-- ===== src/Auth.antt =====
-- Authentication by passwords and rotating refresh tokens: repositories/user_repo.py,
-- repositories/session_repo.py, services/auth_service.py and api/v1/auth.py.
pub mod Repo
pub mod Service
pub mod Router
pub mod Browser
pub mod Spent
pub mod Keeps
pub mod Calls
pub mod Rotation
pub mod Access
pub mod Bootstrap
pub mod Owner
pub mod Limited
