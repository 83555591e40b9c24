-- ===== src/Knowledge/Repo.antt =====
-- repositories/knowledge_repo.py
use support_endpoint.Prelude.{
  ℕ, ◌-◌, String, Bool, true, ◌&&◌, Option, List, find, select, push, length, ◌==◌, leb, str_eq,
  if◌then◌else◌,
}
use support_endpoint.Models.{KnowledgeArticle, AiSuggestion}
use support_endpoint.Session.{Db, Action, ◌>>=◌, ◌>>◌, pure, modify, new_uuid, utcnow}

-- ORDER BY updated_at DESC.
pub record KnowledgeQueries : Type 0 where
  pub newest_first : List KnowledgeArticle → List KnowledgeArticle

-- `KnowledgeRepository.create`
unfoldable pub create_article : ℕ → ℕ → String → String → String → Action KnowledgeArticle
create_article workspace_id author_user_id title body status = do
  i ← new_uuid
  now ← utcnow
  let item : KnowledgeArticle = record {
    id = i;
    workspace_id = workspace_id;
    author_user_id = author_user_id;
    title = title;
    body = body;
    status = status;
    created_at = now;
  }
  modify (λ d. record d { knowledge_articles = push item d.knowledge_articles })
  pure item

unfoldable pub get_article : ℕ → ℕ → Db → Option KnowledgeArticle
get_article workspace_id article_id d =
    find (λ (a : KnowledgeArticle). a.id == article_id && a.workspace_id == workspace_id)
      d.knowledge_articles

-- The articles of a workspace, all or the published ones.
abbrev pub is_listed : ℕ → Bool → KnowledgeArticle → Bool
is_listed workspace_id published_only a =
    a.workspace_id == workspace_id && (if published_only then str_eq a.status "published" else true)

unfoldable pub list_articles : KnowledgeQueries → ℕ → Bool → Db → List KnowledgeArticle
list_articles queries workspace_id published_only d =
    queries.newest_first (select (is_listed workspace_id published_only) d.knowledge_articles)

-- The suggestions for a workspace since an instant.
abbrev pub is_since : ℕ → ℕ → AiSuggestion → Bool
is_since workspace_id since x = x.workspace_id == workspace_id && leb since x.created_at

-- `count_recent_for_workspace`, at an instant. An instant before the first one counts as the first.
unfoldable pub count_recent_for_workspace : ℕ → ℕ → Db → ℕ
count_recent_for_workspace workspace_id now d =
    length (select (is_since workspace_id (now - 60000000)) d.ai_suggestions)

-- `AISuggestionRepository.create`
unfoldable pub create_suggestion : ℕ → ℕ → ℕ → String → String → String → Action AiSuggestion
create_suggestion workspace_id ticket_id actor_user_id kind prompt_hash response_text = do
  i ← new_uuid
  now ← utcnow
  let item : AiSuggestion = record {
    id = i;
    workspace_id = workspace_id;
    ticket_id = ticket_id;
    actor_user_id = actor_user_id;
    kind = kind;
    prompt_hash = prompt_hash;
    response_text = response_text;
    created_at = now;
  }
  modify (λ d. record d { ai_suggestions = push item d.ai_suggestions })
  pure item
