-- ===== src/Knowledge/Published.antt =====
-- What the assistant reads of the knowledge base.
use support_endpoint.Prelude.{
  ℕ, ◌≡◌, refl, ap, String, true, List, select, inl, inr, Bool-cases, Option-cases, leb, Bool, ◌&&◌,
  ◌==◌, str_eq,
}
use support_endpoint.Models.{KnowledgeArticle}
use support_endpoint.Session.{Db, Session, request}
use support_endpoint.Audit.{record_event}
use support_endpoint.Authz.{
  require_permission, get_workspace_membership, get_membership, permission_codes_for_role, has_code,
}
use support_endpoint.Authz.Permissions.{ai_assist}
use support_endpoint.Ticket.Repo.{get_in_workspace}
use support_endpoint.Knowledge.Repo.{
  KnowledgeQueries, list_articles, count_recent_for_workspace, create_suggestion,
}
use support_endpoint.Knowledge.Service
use support_endpoint.Knowledge.Service.{Assistant, is_allowed_kind, prompt_of, system_prompt}
use support_endpoint.Knowledge.Router

-- An article that a workspace has published.
abbrev pub is_published : ℕ → KnowledgeArticle → Bool
is_published w a = a.workspace_id == w && str_eq a.status "published"

-- The same session, but with other articles.
abbrev pub with_articles : List KnowledgeArticle → Session → Session
with_articles rows s = record s { stored = record s.stored { knowledge_articles = rows } }

module _ (queries : KnowledgeQueries) (assistant : Assistant) where
  list-same :
      (w : ℕ) (rows : List KnowledgeArticle) (d : Db)
      → select (is_published w) rows ≡ select (is_published w) d.knowledge_articles
      → list_articles queries w true (record d { knowledge_articles = rows })
        ≡ list_articles queries w true d
  unfolding list_articles
  list-same w rows d h = ap queries.newest_first h

  suggest-same :
      (w ticket_id user : ℕ) (kind : String) (rows : List KnowledgeArticle) (s : Session)
      → select (is_published w) rows ≡ select (is_published w) s.stored.knowledge_articles
      → (request (Service.suggest queries assistant w ticket_id user kind) (with_articles rows s)).0
        ≡ (request (Service.suggest queries assistant w ticket_id user kind) s).0
  unfolding request Service.suggest create_suggestion record_event get_in_workspace
      count_recent_for_workspace
  suggest-same w ticket_id user kind rows s h = elim (Bool-cases (is_allowed_kind kind)) [
    | inr e ↦ rw e refl
    | inl e ↦ elim (Option-cases (get_in_workspace w ticket_id s.stored)) [
      | inl f ↦ rw (e, f) refl
      | inr (ticket, f) ↦
          elim (Bool-cases (
            leb assistant.llm_workspace_requests_per_minute
              (count_recent_for_workspace w s.now s.stored))) [
                | inl g ↦ rw (e, f, g) refl
                | inr g ↦
                    elim (Option-cases (
                      assistant.suggest system_prompt
                        (prompt_of kind ticket (list_articles queries w true s.stored)))) [
                          | inl k ↦ rw (e, f, g, list-same w rows s.stored h, k) refl
                          | inr (result, k) ↦ rw (e, f, g, list-same w rows s.stored h, k) refl
                        ]
              ]
    ]
  ]

  -- The answer to a request for a suggestion depends on no article but the published ones of the
  -- workspace: whatever drafts and archived articles there are, and whatever other workspaces have,
  -- the caller gets the same answer, whatever the gateway makes of a prompt.
  pub create_ai_suggestion-same :
      (w user ticket_id : ℕ) (kind : String) (rows : List KnowledgeArticle) (s : Session)
      → select (is_published w) rows ≡ select (is_published w) s.stored.knowledge_articles
      → (request
          (Router.create_ai_suggestion queries assistant w user ticket_id kind)
          (with_articles rows s)).0
        ≡ (request (Router.create_ai_suggestion queries assistant w user ticket_id kind) s).0
  unfolding request Router.create_ai_suggestion require_permission get_workspace_membership
      get_membership permission_codes_for_role
  create_ai_suggestion-same w user ticket_id kind rows s h =
      elim (Option-cases (get_membership w user s.stored)) [
        | inl e ↦ rw e refl
        | inr (m, e) ↦
            elim (Bool-cases (has_code ai_assist (permission_codes_for_role m.role_id s.stored))) [
              | inr f ↦ rw (e, f) refl
              | inl f ↦ rw (e, f) (suggest-same w ticket_id m.user_id kind rows s h)
            ]
      ]
