-- ===== src/Lookup/Service.antt =====
-- services/ticket_lookup_service.py
use support_endpoint.Prelude.{ℕ, String, Bool, Option, List, [], or_keep}
use support_endpoint.Models.{Queue, TicketCategory, Tag}
use support_endpoint.Session.{Action, not_found, ◌>>=◌, ◌>>◌, pure, query, or_raise, commit}
use support_endpoint.Audit.{record_event, record_success}
use support_endpoint.Ticket.Repo.{
  get_queue as find_queue, get_category as find_category, get_tag as find_tag,
}
use support_endpoint.Lookup.Repo
use support_endpoint.Lookup.Repo.{LookupQueries}

-- schemas/ticket_lookup.py: the fields of a request to update a queue or a category.
pub record LookupUpdateRequest : Type 0 where
  pub name : Option String
  pub description : Option String
  pub is_active : Option Bool

unfoldable pub create_queue : ℕ → ℕ → String → String → Action Queue
unfolding Repo.create_queue record_event
create_queue workspace_id actor_user_id name description = do
  row ← Repo.create_queue workspace_id name description
  record_success "servicedesk.queue.created" workspace_id actor_user_id "queue" row.id []
  commit
  pure row

unfoldable pub get_queue : ℕ → ℕ → Action Queue
get_queue workspace_id queue_id = do
  row ← query (find_queue workspace_id queue_id)
  or_raise row (not_found "Queue not found")

unfoldable pub list_queues : LookupQueries → ℕ → Action (List Queue)
list_queues sql workspace_id = query (Repo.list_queues sql workspace_id)

abbrev pub revise_queue : LookupUpdateRequest → Queue → Queue
revise_queue payload row = record row {
  name = or_keep payload.name row.name;
  description = or_keep payload.description row.description;
  is_active = or_keep payload.is_active row.is_active;
}

unfoldable pub update_queue : ℕ → ℕ → ℕ → LookupUpdateRequest → Action Queue
unfolding get_queue Repo.assign_queue record_event
update_queue workspace_id actor_user_id queue_id payload = do
  row ← get_queue workspace_id queue_id
  Repo.assign_queue row (revise_queue payload)
  record_success "servicedesk.queue.updated" workspace_id actor_user_id "queue" row.id []
  commit
  pure (revise_queue payload row)

unfoldable pub create_category : ℕ → ℕ → String → String → Action TicketCategory
unfolding Repo.create_category record_event
create_category workspace_id actor_user_id name description = do
  row ← Repo.create_category workspace_id name description
  record_success "servicedesk.category.created" workspace_id actor_user_id "ticket_category" row.id
      []
  commit
  pure row

unfoldable pub get_category : ℕ → ℕ → Action TicketCategory
get_category workspace_id category_id = do
  row ← query (find_category workspace_id category_id)
  or_raise row (not_found "Category not found")

unfoldable pub list_categories : LookupQueries → ℕ → Action (List TicketCategory)
list_categories sql workspace_id = query (Repo.list_categories sql workspace_id)

abbrev pub revise_category : LookupUpdateRequest → TicketCategory → TicketCategory
revise_category payload row = record row {
  name = or_keep payload.name row.name;
  description = or_keep payload.description row.description;
  is_active = or_keep payload.is_active row.is_active;
}

unfoldable pub update_category : ℕ → ℕ → ℕ → LookupUpdateRequest → Action TicketCategory
unfolding get_category Repo.assign_category record_event
update_category workspace_id actor_user_id category_id payload = do
  row ← get_category workspace_id category_id
  Repo.assign_category row (revise_category payload)
  record_success "servicedesk.category.updated" workspace_id actor_user_id "ticket_category" row.id
      []
  commit
  pure (revise_category payload row)

unfoldable pub create_tag : ℕ → ℕ → String → String → Action Tag
unfolding Repo.create_tag record_event
create_tag workspace_id actor_user_id name color = do
  row ← Repo.create_tag workspace_id name color
  record_success "servicedesk.tag.created" workspace_id actor_user_id "tag" row.id []
  commit
  pure row

unfoldable pub get_tag : ℕ → ℕ → Action Tag
get_tag workspace_id tag_id = do
  row ← query (find_tag workspace_id tag_id)
  or_raise row (not_found "Tag not found")

unfoldable pub list_tags : LookupQueries → ℕ → Action (List Tag)
list_tags sql workspace_id = query (Repo.list_tags sql workspace_id)
