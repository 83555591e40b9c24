-- ===== src/Knowledge/Router.antt =====
-- api/v1/knowledge.py
use support_endpoint.Prelude.{ℕ, String, List}
use support_endpoint.Models.{KnowledgeArticle, AiSuggestion}
use support_endpoint.Session.{Action, ◌>>=◌}
use support_endpoint.Authz.{require_permission}
use support_endpoint.Authz.Permissions.{knowledge_read, knowledge_write, ai_assist}
use support_endpoint.Knowledge.Repo.{KnowledgeQueries}
use support_endpoint.Knowledge.Service
use support_endpoint.Knowledge.Service.{Assistant}

unfoldable pub create_article : ℕ → ℕ → String → String → String → Action KnowledgeArticle
create_article workspace_id caller title body status = do
  membership ← require_permission knowledge_write workspace_id caller
  Service.create workspace_id membership.user_id title body status

unfoldable pub get_article : ℕ → ℕ → ℕ → Action KnowledgeArticle
get_article workspace_id caller article_id = do
  membership ← require_permission knowledge_read workspace_id caller
  Service.get workspace_id article_id

module _ (queries : KnowledgeQueries) where
  unfoldable pub list_articles : ℕ → ℕ → Action (List KnowledgeArticle)
  list_articles workspace_id caller = do
    membership ← require_permission knowledge_read workspace_id caller
    Service.list queries workspace_id

  unfoldable pub create_ai_suggestion : Assistant → ℕ → ℕ → ℕ → String → Action AiSuggestion
  create_ai_suggestion assistant workspace_id caller ticket_id kind = do
    membership ← require_permission ai_assist workspace_id caller
    Service.suggest queries assistant workspace_id ticket_id membership.user_id kind
