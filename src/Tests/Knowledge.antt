-- ===== src/Tests/Knowledge.antt =====
-- The theorems about the assistant, on the printer's ticket.
use support_endpoint.Prelude.{◌≡◌, refl, some, List, [], ◌∷◌, select, arith}
use support_endpoint.Models.{KnowledgeArticle}
use support_endpoint.Session.{Db, Session, request}
use support_endpoint.Authz.Permissions.{ai_assist}
use support_endpoint.Samples.{desk_db, desk}
use support_endpoint.Knowledge.Repo.{KnowledgeQueries}
use support_endpoint.Knowledge.Service.{Assistant}
use support_endpoint.Knowledge.Router.{create_ai_suggestion}
use support_endpoint.Knowledge.Calls.{KnowledgeCall, KnowledgeRequest, serve_knowledge}
use support_endpoint.Knowledge.Rate.{WithinRate, serve_knowledge-WithinRate}
use support_endpoint.Knowledge.Published.{with_articles, create_ai_suggestion-same}

abbrev plain_order : KnowledgeQueries
plain_order = record { newest_first = λ rows. rows }

-- A model that repeats its prompt.
abbrev echo : Assistant
echo = record {
  suggest = λ system prompt. some (record { text = prompt; redacted_prompt = prompt });
  sha256 = λ text. text;
  llm_workspace_requests_per_minute = 1;
}

abbrev ai_db : Db
ai_db = record desk_db {
  permissions = record { id = 9; code = ai_assist; description = "" } ∷ desk_db.permissions;
  role_permissions = record { id = 54; role_id = 4; permission_id = 9 } ∷ desk_db.role_permissions;
}

abbrev ai_desk : Session
ai_desk = record desk { stored = ai_db; work = ai_db }

abbrev drafts : List KnowledgeArticle
drafts =
    record {
      id = 95;
      workspace_id = 1;
      author_user_id = 3;
      title = "Printers";
      body = "Not yet.";
      status = "draft";
      created_at = 5;
    }
    ∷ []

create_ai_suggestion-same_example :
    (request
      (create_ai_suggestion plain_order echo 1 3 20 "reply")
      (with_articles drafts ai_desk)).0
    ≡ (request (create_ai_suggestion plain_order echo 1 3 20 "reply") ai_desk).0
unfolding select
create_ai_suggestion-same_example =
    create_ai_suggestion-same plain_order echo 1 3 20 "reply" drafts ai_desk refl

abbrev two_prompts : List KnowledgeRequest
two_prompts =
    record {
      at = 100;
      workspace_id = 1;
      user_id = 3;
      call = KnowledgeCall.create_ai_suggestion 20 "reply";
    }
    ∷ record {
      at = 200;
      workspace_id = 1;
      user_id = 3;
      call = KnowledgeCall.create_ai_suggestion 20 "summary";
    }
    ∷ []

serve_knowledge-WithinRate_example :
    WithinRate 1 (serve_knowledge plain_order echo two_prompts ai_desk).stored.ai_suggestions
unfolding select
serve_knowledge-WithinRate_example =
    serve_knowledge-WithinRate plain_order echo two_prompts ai_desk (λ w t. omega arith)
