-- ===== src/Tests/Workspaces.antt =====
-- The theorems about workspaces at two workspaces of the same name.
use support_endpoint.Prelude.{◌≡◌, refl, true, false, [], ◌∷◌}
use support_endpoint.Session.{Db, empty_db, Session, request}
use support_endpoint.Workspaces.Slugify.{slugify, is_words, slugify-is_words}
use support_endpoint.Workspaces.Repo.{WorkspaceQueries, create_workspace}
use support_endpoint.Workspaces.Slug.{Creates, create_workspace-Creates}
use support_endpoint.Workspaces.Service.{create_workspace_for_user}
use support_endpoint.Workspaces.Creation.{Administers, create_workspace_for_user-Administers}

-- `lower` of a text in lower case, and rows that are in the order of their ids.
abbrev small_queries : WorkspaceQueries
small_queries = record { lower = λ s. s; by_id = λ ws. ws }

abbrev two_acmes : Db
two_acmes = record empty_db {
  workspaces =
      record { id = 1; name = "acme!"; slug = "acme" }
      ∷ record { id = 2; name = "acme"; slug = "acme-2" }
      ∷ [];
}

abbrev acmes : Session
acmes = record { work = two_acmes; stored = two_acmes; next_id = 3; now = 0 }

slug_of_acme : slugify (λ s. s) " the acme, inc. " ≡ "the-acme-inc"
unfolding slugify
slug_of_acme = refl

slugify-is_words_example : is_words false (slugify (λ s. s) " the acme, inc. ") ≡ true
slugify-is_words_example = slugify-is_words (λ s. s) " the acme, inc. "

create_workspace_example :
    Creates small_queries "acme" acmes (create_workspace small_queries "acme" acmes)
create_workspace_example = create_workspace-Creates small_queries "acme" acmes

-- The sessions of acmes have no membership, and nothing is seeded there.
create_workspace_for_user-Administers_example :
    Administers 7 "acme"
      (request (create_workspace_for_user small_queries (λ codes. codes) 7 "acme") acmes)
create_workspace_for_user-Administers_example =
    create_workspace_for_user-Administers small_queries (λ codes. codes) 7 "acme" acmes
      (λ xs x. refl) tt
