-- ===== src/Lookup/Repo.antt =====
-- repositories/ticket_lookup_repo.py: queues, ticket categories and tags. The reads of a row in its
-- workspace are in Ticket/Repo.antt. The constraints `uq_queue_workspace_name`,
-- `uq_category_workspace_name` and `uq_tag_workspace_name` of models/ticket.py make a flush fail that
-- would give a workspace the same name twice.
use support_endpoint.Prelude.{
  ℕ, String, Bool, true, ◌&&◌, not, List, push, select, any, modify_where, ◌==◌, str_eq,
}
use support_endpoint.Models.{Queue, TicketCategory, Tag}
use support_endpoint.Session.{
  Db, Action, unhandled, ◌>>=◌, ◌>>◌, pure, query, modify, new_uuid, raise_if,
}

-- What the database does for a listing: `order_by` of the name.
pub record LookupQueries : Type 0 where
  pub queues_by_name : List Queue → List Queue
  pub categories_by_name : List TicketCategory → List TicketCategory
  pub tags_by_name : List Tag → List Tag

-- Another row of the workspace has the name.
abbrev pub has_queue_name : ℕ → String → Queue → Bool
has_queue_name workspace_id name q = q.workspace_id == workspace_id && str_eq q.name name

unfoldable pub create_queue : ℕ → String → String → Action Queue
create_queue workspace_id name description = do
  i ← new_uuid
  taken ← query (λ d. any (has_queue_name workspace_id name) d.queues)
  raise_if taken (unhandled "IntegrityError")
  let row : Queue = record {
    id = i;
    workspace_id = workspace_id;
    name = name;
    description = description;
    is_active = true;
  }
  modify (λ d. record d { queues = push row d.queues })
  pure row

unfoldable pub list_queues : LookupQueries → ℕ → Db → List Queue
list_queues sql workspace_id d =
    sql.queues_by_name (select (λ (q : Queue). q.workspace_id == workspace_id) d.queues)

-- The flush of a loaded row whose attributes were assigned.
unfoldable pub assign_queue : Queue → (Queue → Queue) → Action (Unit {0})
assign_queue old f = do
  let new : Queue = f old
  taken ← query (λ d.
      any (λ (q : Queue). not (q.id == old.id) && has_queue_name new.workspace_id new.name q)
        d.queues)
  raise_if taken (unhandled "IntegrityError")
  modify (λ d. record d { queues = modify_where (λ (q : Queue). q.id == old.id) f d.queues })

-- Another row of the workspace has the name.
abbrev pub has_category_name : ℕ → String → TicketCategory → Bool
has_category_name workspace_id name c = c.workspace_id == workspace_id && str_eq c.name name

unfoldable pub create_category : ℕ → String → String → Action TicketCategory
create_category workspace_id name description = do
  i ← new_uuid
  taken ← query (λ d. any (has_category_name workspace_id name) d.categories)
  raise_if taken (unhandled "IntegrityError")
  let row : TicketCategory = record {
    id = i;
    workspace_id = workspace_id;
    name = name;
    description = description;
    is_active = true;
  }
  modify (λ d. record d { categories = push row d.categories })
  pure row

unfoldable pub list_categories : LookupQueries → ℕ → Db → List TicketCategory
list_categories sql workspace_id d =
    sql.categories_by_name
      (select (λ (c : TicketCategory). c.workspace_id == workspace_id) d.categories)

-- The flush of a loaded row whose attributes were assigned.
unfoldable pub assign_category :
    TicketCategory → (TicketCategory → TicketCategory) → Action (Unit {0})
assign_category old f = do
  let new : TicketCategory = f old
  taken ← query (λ d.
      any
        (λ (c : TicketCategory).
          not (c.id == old.id) && has_category_name new.workspace_id new.name c)
        d.categories)
  raise_if taken (unhandled "IntegrityError")
  modify (λ d. record d {
    categories = modify_where (λ (c : TicketCategory). c.id == old.id) f d.categories;
  })

-- Another row of the workspace has the name.
abbrev pub has_tag_name : ℕ → String → Tag → Bool
has_tag_name workspace_id name t = t.workspace_id == workspace_id && str_eq t.name name

unfoldable pub create_tag : ℕ → String → String → Action Tag
create_tag workspace_id name color = do
  i ← new_uuid
  taken ← query (λ d. any (has_tag_name workspace_id name) d.tags)
  raise_if taken (unhandled "IntegrityError")
  let row : Tag = record { id = i; workspace_id = workspace_id; name = name; color = color }
  modify (λ d. record d { tags = push row d.tags })
  pure row

unfoldable pub list_tags : LookupQueries → ℕ → Db → List Tag
list_tags sql workspace_id d =
    sql.tags_by_name (select (λ (t : Tag). t.workspace_id == workspace_id) d.tags)
