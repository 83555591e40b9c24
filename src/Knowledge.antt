-- ===== src/Knowledge.antt =====
-- The knowledge base and the assistant: repositories/knowledge_repo.py,
-- services/knowledge_service.py and api/v1/knowledge.py.
pub mod Repo
pub mod Service
pub mod Router
pub mod Calls
pub mod Rate
pub mod Published
