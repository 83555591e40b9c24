-- ===== src/Knowledge/Service.antt =====
-- services/knowledge_service.py. What the gateway answers to a system prompt and a user prompt, or
-- none for an exception, is an argument.
use support_endpoint.Prelude.{
  ℕ, zero, suc, String, Bool, false, true, not, ◌||◌, Option, List, [], ◌∷◌, map, leb, str_eq,
}
use Prim.Native.String.{[] as empty, ◌∷◌ as cons, ◌++◌ as text_append}
use support_endpoint.Models.{KnowledgeArticle, AiSuggestion, Ticket, Meta}
use support_endpoint.Session.{
  Action, validation, not_found, ◌>>=◌, ◌>>◌, pure, query, or_raise, raise_if, commit, utcnow,
}
use support_endpoint.Audit.{record_event, record_success}
use support_endpoint.Ticket.Repo.{get_in_workspace}
use support_endpoint.Gateway.{GatewayResult}
use support_endpoint.Knowledge.Repo
use support_endpoint.Knowledge.Repo.{KnowledgeQueries}

-- What the service calls, and the setting that it reads.
pub record Assistant : Type 0 where
  pub suggest : String → String → Option GatewayResult
  pub sha256 : String → String
  pub llm_workspace_requests_per_minute : ℕ

-- `status in _ALLOWED_STATUSES` and `kind in _ALLOWED_KINDS`
unfoldable pub is_allowed_status : String → Bool
is_allowed_status status =
    str_eq status "draft" || (str_eq status "published" || str_eq status "archived")

unfoldable pub is_allowed_kind : String → Bool
is_allowed_kind kind = str_eq kind "reply" || (str_eq kind "summary" || str_eq kind "next_steps")

unfoldable pub create : ℕ → ℕ → String → String → String → Action KnowledgeArticle
unfolding Repo.create_article record_event
create workspace_id actor_user_id title body status = do
  raise_if (not (is_allowed_status status)) (validation "invalid knowledge article status")
  item ← Repo.create_article workspace_id actor_user_id title body status
  record_success "knowledge.article.created" workspace_id actor_user_id "knowledge_article" item.id
      (("status", Meta.text status) ∷ [])
  commit
  pure item

unfoldable pub get : ℕ → ℕ → Action KnowledgeArticle
get workspace_id article_id = do
  item ← query (Repo.get_article workspace_id article_id)
  or_raise item (not_found "Knowledge article not found")

-- `text[:n]`
unfoldable pub prefix_of : ℕ → String → String
prefix_of zero text = empty
prefix_of (suc n) empty = empty
prefix_of (suc n) (cons c rest) = cons c (prefix_of n rest)

-- `items[:n]`
unfoldable pub first_articles : ℕ → List KnowledgeArticle → List KnowledgeArticle
first_articles zero items = []
first_articles (suc n) [] = []
first_articles (suc n) (a ∷ items) = a ∷ first_articles n items

-- `"\n\n".join(parts)`
unfoldable pub paragraphs : List String → String
paragraphs [] = empty
paragraphs (part ∷ parts) = elim parts [
  | [] ↦ part
  | next ∷ rest ↦ text_append part (text_append "\n\n" (paragraphs parts))
]

-- f"# {a.title}\n{a.body[:3000]}"
unfoldable pub section_of : KnowledgeArticle → String
section_of a = text_append "# " (text_append a.title (text_append "\n" (prefix_of 3000 a.body)))

-- `kb_context or '[no published articles]'`
abbrev or_missing : String → String
or_missing empty = "[no published articles]"
or_missing (cons c rest) = cons c rest

unfoldable pub prompt_of : String → Ticket → List KnowledgeArticle → String
prompt_of kind ticket articles =
    let kb_context = paragraphs (map section_of (first_articles 5 articles)) in
    text_append "Task: " (
      text_append kind (
        text_append "\nTicket subject: " (
          text_append ticket.subject (
            text_append "\nTicket description: " (
              text_append ticket.description
                (text_append "\nKnowledge base:\n" (or_missing kb_context)))))))

abbrev pub system_prompt : String
system_prompt =
    "You are an advisory customer-support assistant. Return a concise proposal only. Do not claim to have sent messages, changed ticket state, changed permissions, executed commands, or modified infrastructure."

module _ (queries : KnowledgeQueries) where
  unfoldable pub list : ℕ → Action (List KnowledgeArticle)
  list workspace_id = query (Repo.list_articles queries workspace_id false)

  module _ (assistant : Assistant) where
    -- `AIAssistService.suggest`, at one instant: the program reads the clock again after the call of the model.
    unfoldable pub suggest : ℕ → ℕ → ℕ → String → Action AiSuggestion
    unfolding Repo.create_suggestion record_event
    suggest workspace_id ticket_id actor_user_id kind = do
      raise_if (not (is_allowed_kind kind)) (validation "invalid AI suggestion kind")
      found ← query (get_in_workspace workspace_id ticket_id)
      ticket ← or_raise found (not_found "Ticket not found")
      now ← utcnow
      recent ← query (Repo.count_recent_for_workspace workspace_id now)
      raise_if (leb assistant.llm_workspace_requests_per_minute recent)
          (validation "AI workspace rate limit exceeded")
      articles ← query (Repo.list_articles queries workspace_id true)
      result ←
          or_raise (assistant.suggest system_prompt (prompt_of kind ticket articles))
            (validation "AI assistance is unavailable")
      item ←
          Repo.create_suggestion workspace_id ticket_id actor_user_id kind
            (assistant.sha256 result.redacted_prompt) result.text
      record_success "ai.suggestion.created" workspace_id actor_user_id "ai_suggestion" item.id
          (("ticket_id", Meta.key ticket_id) ∷ ("kind", Meta.text kind) ∷ [])
      commit
      pure item
