-- ===== src/Knowledge/Rate.antt =====
-- The rate limit of the assistant's suggestions.
use support_endpoint.Prelude.{
  ℕ, ◌+◌, ◌-◌, ◌<◌, ◌≤◌, ◌≡◌, ◌∙◌, ap, String, Bool, true, ◌&&◌, List, [], ◌∷◌, push, select,
  select-append, select_none, length, length-append, leb, ◌==◌, arith, inl, inr, Bool-cases,
  Option-cases,
}
use support_endpoint.Models.{AiSuggestion}
use support_endpoint.Session.{Session, request}
use support_endpoint.Authz.Guard.{guarded_keeps}
use support_endpoint.Audit.{record_event}
use support_endpoint.Ticket.Repo.{get_in_workspace}
use support_endpoint.Knowledge.Repo.{
  KnowledgeQueries, is_since, count_recent_for_workspace, create_suggestion, list_articles,
}
use support_endpoint.Knowledge.Repo
use support_endpoint.Knowledge.Service
use support_endpoint.Knowledge.Service.{
  Assistant, is_allowed_kind, is_allowed_status, prompt_of, system_prompt,
}
use support_endpoint.Knowledge.Router
use support_endpoint.Knowledge.Calls.{
  KnowledgeCall, KnowledgeRequest, handle_knowledge, serve_knowledge,
}

-- A suggestion for the workspace within the minute from an instant on.
abbrev pub is_within : ℕ → ℕ → AiSuggestion → Bool
is_within w t x = x.workspace_id == w && (leb t x.created_at && leb x.created_at (t + 60000000))

-- In no minute does a workspace have more suggestions than the limit.
abbrev pub WithinRate : ℕ → List AiSuggestion → Type 0
WithinRate limit rows = (w t : ℕ) → length (select (is_within w t) rows) ≤ limit

select-le :
    (p q : AiSuggestion → Bool) (xs : List AiSuggestion)
    → ((x : AiSuggestion) → p x ≡ true → q x ≡ true)
    → length (select p xs) ≤ length (select q xs)
unfolding select
select-le p q [] h = omega arith
select-le p q (x ∷ xs) h = ground (arith, h x, select-le p q xs h)

select-one : (p : AiSuggestion → Bool) (x : AiSuggestion) → length (select p (x ∷ [])) ≤ 1
unfolding select
select-one p x = ground arith

-- A new suggestion, where the limit was not reached.
WithinRate-push :
    (limit : ℕ) (row : AiSuggestion) (rows : List AiSuggestion)
    → length (select (is_since row.workspace_id (row.created_at - 60000000)) rows) < limit
    → WithinRate limit rows
    → WithinRate limit (push row rows)
WithinRate-push limit row rows below h w t =
    let p = is_within w t in
    let total =
      ap length (select-append p rows (row ∷ []))
      ∙ length-append (select p rows) (select p (row ∷ [])) in
    elim (Bool-cases (p row)) [
      | inr out ↦ omega (arith, total, ap length (select_none p row out), h w t)
      | inl within ↦
          let old =
            select-le p (is_since row.workspace_id (row.created_at - 60000000)) rows
              (λ x k. ground (arith, within)) in
          omega (arith, total, old, select-one p row, below)
    ]

module _ (queries : KnowledgeQueries) (assistant : Assistant) where
  abbrev limit : ℕ
  limit = assistant.llm_workspace_requests_per_minute

  suggest-WithinRate :
      (w ticket_id user : ℕ) (kind : String) (s : Session)
      → WithinRate limit s.stored.ai_suggestions
      → WithinRate limit
          (request
            (Service.suggest queries assistant w ticket_id user kind)
            s).1.stored.ai_suggestions
  unfolding request Service.suggest count_recent_for_workspace create_suggestion record_event
  suggest-WithinRate w ticket_id user kind s h = elim (Bool-cases (is_allowed_kind kind)) [
    | inr e ↦ rw e h
    | inl e ↦ elim (Option-cases (get_in_workspace w ticket_id s.stored)) [
      | inl f ↦ rw (e, f) h
      | inr (ticket, f) ↦
          let recent = length (select (is_since w (s.now - 60000000)) s.stored.ai_suggestions) in
          elim (Bool-cases (leb limit recent)) [
            | inl g ↦ rw (e, f, g) h
            | inr g ↦
                elim (Option-cases (
                  assistant.suggest system_prompt
                    (prompt_of kind ticket (list_articles queries w true s.stored)))) [
                      | inl k ↦ rw (e, f, g, k) h
                      | inr (result, k) ↦
                          rw (e, f, g, k)
                            (WithinRate-push limit _ s.stored.ai_suggestions (ground (arith, g)) h)
                    ]
          ]
    ]
  ]

  create-WithinRate :
      (w user : ℕ) (title body status : String) (s : Session)
      → WithinRate limit s.stored.ai_suggestions
      → WithinRate limit
          (request (Service.create w user title body status) s).1.stored.ai_suggestions
  unfolding request Service.create Repo.create_article record_event
  create-WithinRate w user title body status s h = elim (Bool-cases (is_allowed_status status)) [
    | inr e ↦ rw e h
    | inl e ↦ rw e h
  ]

  handle_knowledge-WithinRate :
      (w user : ℕ) (c : KnowledgeCall) (s : Session)
      → WithinRate limit s.stored.ai_suggestions
      → WithinRate limit (handle_knowledge queries assistant w user c s).stored.ai_suggestions
  unfolding handle_knowledge Router.create_article Router.create_ai_suggestion
  handle_knowledge-WithinRate w user (KnowledgeCall.create_article title body status) s h =
      guarded_keeps (λ out. WithinRate limit out.1.stored.ai_suggestions) _ w user _ s (λ e. h)
        (λ m found held. create-WithinRate w m.user_id title body status s h)
  handle_knowledge-WithinRate w user (KnowledgeCall.create_ai_suggestion ticket_id kind) s h =
      guarded_keeps (λ out. WithinRate limit out.1.stored.ai_suggestions) _ w user _ s (λ e. h)
        (λ m found held. suggest-WithinRate w ticket_id m.user_id kind s h)

  -- If in no minute, whenever it begins, a workspace has more suggestions stored than the setting
  -- allows, then it is so after any run of requests of the knowledge base and the assistant, whatever
  -- their instants.
  pub serve_knowledge-WithinRate :
      (rs : List KnowledgeRequest) (s : Session)
      → WithinRate limit s.stored.ai_suggestions
      → WithinRate limit (serve_knowledge queries assistant rs s).stored.ai_suggestions
  unfolding serve_knowledge
  serve_knowledge-WithinRate [] s h = h
  serve_knowledge-WithinRate (r ∷ rs) s h =
      serve_knowledge-WithinRate rs _
        (handle_knowledge-WithinRate r.workspace_id r.user_id r.call (record s { now = r.at }) h)
