-- ===== src/Ticket/Repo.antt =====
-- repositories/ticket_repo.py, and the reads of ticket_lookup_repo.py and client_repo.py by which
-- a ticket's references are validated.
use support_endpoint.Prelude.{
  sort_by, ℕ, String, Bool, ◌&&◌, ◌||◌, Option, none, some, List, push, length, take, drop, find,
  select, modify_where, remove_where, ◌==◌, str_eq, holds, unless_none,
}
use support_endpoint.Models.{
  TicketStatus, TicketPriority, status_eq, priority_eq, Ticket, TicketAssignment, TicketTag, Queue,
  TicketCategory, Tag, Client,
}
use support_endpoint.Session.{Db, Action, ◌>>=◌, ◌>>◌, pure, query, modify, new_uuid, utcnow}

-- `TicketRepository.get_in_workspace`
unfoldable pub get_in_workspace : ℕ → ℕ → Db → Option Ticket
get_in_workspace workspace_id ticket_id d =
    find (λ (t : Ticket). t.id == ticket_id && t.workspace_id == workspace_id) d.tickets

-- `ClientRepository.get_in_workspace`
unfoldable pub get_client : ℕ → ℕ → Db → Option Client
get_client workspace_id client_id d =
    find (λ (c : Client). c.id == client_id && c.workspace_id == workspace_id) d.clients

-- `QueueRepository.get_in_workspace`
unfoldable pub get_queue : ℕ → ℕ → Db → Option Queue
get_queue workspace_id queue_id d =
    find (λ (q : Queue). q.id == queue_id && q.workspace_id == workspace_id) d.queues

-- `TicketCategoryRepository.get_in_workspace`
unfoldable pub get_category : ℕ → ℕ → Db → Option TicketCategory
get_category workspace_id category_id d =
    find (λ (c : TicketCategory). c.id == category_id && c.workspace_id == workspace_id)
      d.categories

-- `TagRepository.get_in_workspace`
unfoldable pub get_tag : ℕ → ℕ → Db → Option Tag
get_tag workspace_id tag_id d =
    find (λ (t : Tag). t.id == tag_id && t.workspace_id == workspace_id) d.tags

-- schemas/ticket.py: the fields of a request to create a ticket.
pub record TicketCreateRequest : Type 0 where
  pub client_id : ℕ
  pub subject : String
  pub description : String
  pub priority : TicketPriority
  pub queue_id : Option ℕ
  pub category_id : Option ℕ

-- The row that `TicketRepository.create` inserts, with its column defaults.
abbrev pub new_ticket : ℕ → ℕ → ℕ → ℕ → TicketCreateRequest → Ticket
new_ticket i now workspace_id creator_user_id payload = record {
  id = i;
  workspace_id = workspace_id;
  client_id = payload.client_id;
  creator_user_id = creator_user_id;
  assignee_user_id = none;
  queue_id = payload.queue_id;
  category_id = payload.category_id;
  subject = payload.subject;
  description = payload.description;
  status = TicketStatus.new;
  priority = payload.priority;
  created_at = now;
}

-- `TicketRepository.create`
unfoldable pub create : ℕ → ℕ → TicketCreateRequest → Action Ticket
create workspace_id creator_user_id payload = do
  i ← new_uuid
  now ← utcnow
  let ticket : Ticket = new_ticket i now workspace_id creator_user_id payload
  modify (λ d. record d { tickets = push ticket d.tickets })
  pure ticket

-- Assigning to attributes of a loaded ticket, which the next flush writes to its row.
unfoldable pub assign_fields : ℕ → (Ticket → Ticket) → Action (Unit {0})
assign_fields ticket_id f =
    modify λ d. record d { tickets = modify_where (λ (t : Ticket). t.id == ticket_id) f d.tickets }

-- `TicketAssignmentRepository.create`
unfoldable pub create_assignment : ℕ → ℕ → Option ℕ → ℕ → Action TicketAssignment
create_assignment workspace_id ticket_id assignee_user_id assigned_by_user_id = do
  i ← new_uuid
  t ← utcnow
  let row : TicketAssignment = record {
    id = i;
    workspace_id = workspace_id;
    ticket_id = ticket_id;
    assignee_user_id = assignee_user_id;
    assigned_by_user_id = assigned_by_user_id;
    created_at = t;
  }
  modify (λ d. record d { assignments = push row d.assignments })
  pure row

-- `TicketAssignmentRepository.list_for_ticket`
unfoldable pub list_for_ticket : ℕ → ℕ → Db → List TicketAssignment
list_for_ticket workspace_id ticket_id d =
    sort_by (λ (a : TicketAssignment). a.created_at)
      (select (λ (a : TicketAssignment). a.workspace_id == workspace_id && a.ticket_id == ticket_id)
        d.assignments)

-- `TicketTagRepository.get`
unfoldable pub get_ticket_tag : ℕ → ℕ → Db → Option TicketTag
get_ticket_tag ticket_id tag_id d =
    find (λ (l : TicketTag). l.ticket_id == ticket_id && l.tag_id == tag_id) d.ticket_tags

-- `TicketTagRepository.add`
insert_ticket_tag : ℕ → ℕ → Action TicketTag
insert_ticket_tag ticket_id tag_id = do
  i ← new_uuid
  let link : TicketTag = record { id = i; ticket_id = ticket_id; tag_id = tag_id }
  modify (λ d. record d { ticket_tags = push link d.ticket_tags })
  pure link

add_if_missing : ℕ → ℕ → Option TicketTag → Action TicketTag
unfolding insert_ticket_tag
add_if_missing ticket_id tag_id none = insert_ticket_tag ticket_id tag_id
add_if_missing ticket_id tag_id (some existing) = pure existing

unfoldable pub add_ticket_tag : ℕ → ℕ → Action TicketTag
unfolding add_if_missing
add_ticket_tag ticket_id tag_id = do
  existing ← query (get_ticket_tag ticket_id tag_id)
  add_if_missing ticket_id tag_id existing

-- `TicketTagRepository.remove`: `db.delete(link)` deletes the row by its id.
delete_if_found : Option TicketTag → Action (Unit {0})
delete_if_found none = pure tt
delete_if_found (some link) =
    modify λ d. record d {
      ticket_tags = remove_where (λ (l : TicketTag). l.id == link.id) d.ticket_tags;
    }

unfoldable pub remove_ticket_tag : ℕ → ℕ → Action (Unit {0})
unfolding delete_if_found
remove_ticket_tag ticket_id tag_id = do
  link ← query (get_ticket_tag ticket_id tag_id)
  delete_if_found link

-- The filters of a listing.
pub record TicketFilters : Type 0 where
  pub q : String
  pub status : Option TicketStatus
  pub priority : Option TicketPriority
  pub queue_id : Option ℕ
  pub category_id : Option ℕ
  pub assignee_user_id : Option ℕ
  pub client_id : Option ℕ

-- What the database does for a listing: `contains q column` stands for
-- `func.lower(column).like(f"%{q.lower()}%")`, and `newest_first` for
-- `order_by(Ticket.created_at.desc())`.
pub record TicketQueries : Type 0 where
  pub contains : String → String → Bool
  pub newest_first : List Ticket → List Ticket

module _ (sql : TicketQueries) where
  unfoldable pub meets_filters : ℕ → TicketFilters → Ticket → Bool
  meets_filters workspace_id f t =
      t.workspace_id == workspace_id
      && unless_none f.status (status_eq t.status)
      && unless_none f.priority (priority_eq t.priority)
      && unless_none f.queue_id (holds t.queue_id)
      && unless_none f.category_id (holds t.category_id)
      && unless_none f.assignee_user_id (holds t.assignee_user_id)
      && unless_none f.client_id (λ i. t.client_id == i)
      && (str_eq f.q "" || (sql.contains f.q t.subject || sql.contains f.q t.description))

  -- `TicketRepository.list_in_workspace`: a page, and the number of matches.
  unfoldable pub list_in_workspace : ℕ → TicketFilters → ℕ → ℕ → Db → List Ticket × ℕ
  unfolding meets_filters
  list_in_workspace workspace_id f limit offset d =
      let matching = select (meets_filters workspace_id f) d.tickets in
      (take limit (drop offset (sql.newest_first matching)), length matching)
