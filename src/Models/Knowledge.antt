-- ===== src/Models/Knowledge.antt =====
-- models/knowledge.py: the knowledge base, and what the assistant has proposed.
use support_endpoint.Prelude.{ℕ, String}

pub record KnowledgeArticle : Type 0 where
  pub id : ℕ
  pub workspace_id : ℕ
  pub author_user_id : ℕ
  pub title : String
  pub body : String
  pub status : String
  pub created_at : ℕ

pub record AiSuggestion : Type 0 where
  pub id : ℕ
  pub workspace_id : ℕ
  pub ticket_id : ℕ
  pub actor_user_id : ℕ
  pub kind : String
  pub prompt_hash : String
  pub response_text : String
  pub created_at : ℕ
