-- ===== src/Knowledge/Calls.antt =====
-- The requests of api/v1/knowledge.py that write as one type, and a server that handles them one
-- after another.
use support_endpoint.Prelude.{ℕ, String, List, [], ◌∷◌}
use support_endpoint.Session.{Session, request}
use support_endpoint.Knowledge.Repo.{KnowledgeQueries}
use support_endpoint.Knowledge.Router
use support_endpoint.Knowledge.Service.{Assistant}

-- A request that writes, its workspace, its caller, and when it arrives.
pub data KnowledgeCall : Type 0 where
  create_article : String → String → String → KnowledgeCall
  create_ai_suggestion : ℕ → String → KnowledgeCall

pub record KnowledgeRequest : Type 0 where
  pub at : ℕ
  pub workspace_id : ℕ
  pub user_id : ℕ
  pub call : KnowledgeCall

module _ (queries : KnowledgeQueries) (assistant : Assistant) where
  -- The session after a request.
  unfoldable pub handle_knowledge : ℕ → ℕ → KnowledgeCall → Session → Session
  handle_knowledge w user (KnowledgeCall.create_article title body status) s =
      (request (Router.create_article w user title body status) s).1
  handle_knowledge w user (KnowledgeCall.create_ai_suggestion ticket_id kind) s =
      (request (Router.create_ai_suggestion queries assistant w user ticket_id kind) s).1

  unfoldable pub serve_knowledge : List KnowledgeRequest → Session → Session
  serve_knowledge [] s = s
  serve_knowledge (r ∷ rs) s =
      serve_knowledge rs
        (handle_knowledge r.workspace_id r.user_id r.call (record s { now = r.at }))
