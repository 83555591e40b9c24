-- ===== src/Lookup/Router.antt =====
-- api/v1/queues.py, api/v1/ticket_categories.py and api/v1/tags.py: each route first requires its
-- permission.
use support_endpoint.Prelude.{ℕ, String, List}
use support_endpoint.Models.{Queue, TicketCategory, Tag}
use support_endpoint.Session.{Action, ◌>>=◌, ◌>>◌}
use support_endpoint.Authz.{require_permission}
use support_endpoint.Authz.Permissions.{settings_manage, tickets_read}
use support_endpoint.Lookup.Repo.{LookupQueries}
use support_endpoint.Lookup.Service
use support_endpoint.Lookup.Service.{LookupUpdateRequest}

unfoldable pub create_queue : ℕ → ℕ → String → String → Action Queue
create_queue workspace_id user_id name description = do
  membership ← require_permission settings_manage workspace_id user_id
  Service.create_queue workspace_id membership.user_id name description

unfoldable pub list_queues : LookupQueries → ℕ → ℕ → Action (List Queue)
list_queues sql workspace_id user_id = do
  require_permission tickets_read workspace_id user_id
  Service.list_queues sql workspace_id

unfoldable pub get_queue : ℕ → ℕ → ℕ → Action Queue
get_queue workspace_id user_id queue_id = do
  require_permission tickets_read workspace_id user_id
  Service.get_queue workspace_id queue_id

unfoldable pub update_queue : ℕ → ℕ → ℕ → LookupUpdateRequest → Action Queue
update_queue workspace_id user_id queue_id payload = do
  membership ← require_permission settings_manage workspace_id user_id
  Service.update_queue workspace_id membership.user_id queue_id payload

unfoldable pub create_category : ℕ → ℕ → String → String → Action TicketCategory
create_category workspace_id user_id name description = do
  membership ← require_permission settings_manage workspace_id user_id
  Service.create_category workspace_id membership.user_id name description

unfoldable pub list_categories : LookupQueries → ℕ → ℕ → Action (List TicketCategory)
list_categories sql workspace_id user_id = do
  require_permission tickets_read workspace_id user_id
  Service.list_categories sql workspace_id

unfoldable pub get_category : ℕ → ℕ → ℕ → Action TicketCategory
get_category workspace_id user_id category_id = do
  require_permission tickets_read workspace_id user_id
  Service.get_category workspace_id category_id

unfoldable pub update_category : ℕ → ℕ → ℕ → LookupUpdateRequest → Action TicketCategory
update_category workspace_id user_id category_id payload = do
  membership ← require_permission settings_manage workspace_id user_id
  Service.update_category workspace_id membership.user_id category_id payload

unfoldable pub create_tag : ℕ → ℕ → String → String → Action Tag
create_tag workspace_id user_id name color = do
  membership ← require_permission settings_manage workspace_id user_id
  Service.create_tag workspace_id membership.user_id name color

unfoldable pub list_tags : LookupQueries → ℕ → ℕ → Action (List Tag)
list_tags sql workspace_id user_id = do
  require_permission tickets_read workspace_id user_id
  Service.list_tags sql workspace_id
