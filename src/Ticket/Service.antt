-- ===== src/Ticket/Service.antt =====
-- services/ticket_service.py
use support_endpoint.Prelude.{
  ℕ, ℤ, String, Option, none, some, List, [], ◌∷◌, is_none, or_keep, or_keep_some, clamp_limit,
  clamp_offset, not,
}
use support_endpoint.Models.{TicketStatus, TicketPriority, Ticket, TicketAssignment, Meta}
use support_endpoint.Session.{
  Action, not_found, validation, ◌>>=◌, ◌>>◌, pure, query, or_raise, raise_if, commit,
}
use Prim.Native.String.{◌++◌ as text_append}
use support_endpoint.Audit.{record_event, record_success}
use support_endpoint.Authz.{get_membership}
use support_endpoint.Ticket.Status.{is_transition_allowed}
use support_endpoint.Ticket.Repo
use support_endpoint.Ticket.Repo.{TicketCreateRequest, TicketFilters, TicketQueries}

unfoldable pub validate_client : ℕ → ℕ → Action (Unit {0})
validate_client workspace_id client_id = do
  client ← query (Repo.get_client workspace_id client_id)
  raise_if (is_none client) (validation "client_id does not refer to a client in this workspace")

unfoldable pub validate_queue : ℕ → Option ℕ → Action (Unit {0})
validate_queue workspace_id none = pure tt
validate_queue workspace_id (some queue_id) = do
  queue ← query (Repo.get_queue workspace_id queue_id)
  raise_if (is_none queue) (validation "queue_id does not refer to a queue in this workspace")

unfoldable pub validate_category : ℕ → Option ℕ → Action (Unit {0})
validate_category workspace_id none = pure tt
validate_category workspace_id (some category_id) = do
  category ← query (Repo.get_category workspace_id category_id)
  raise_if (is_none category)
      (validation "category_id does not refer to a category in this workspace")

unfoldable pub validate_assignee : ℕ → Option ℕ → Action (Unit {0})
validate_assignee workspace_id none = pure tt
validate_assignee workspace_id (some user_id) = do
  membership ← query (get_membership workspace_id user_id)
  raise_if (is_none membership) (validation "assignee_user_id is not a member of this workspace")

unfoldable pub get : ℕ → ℕ → Action Ticket
get workspace_id ticket_id = do
  ticket ← query (Repo.get_in_workspace workspace_id ticket_id)
  or_raise ticket (not_found "Ticket not found")

unfoldable pub create : ℕ → ℕ → TicketCreateRequest → Action Ticket
unfolding get Repo.create record_event
create workspace_id actor_user_id payload = do
  validate_client workspace_id payload.client_id
  validate_queue workspace_id payload.queue_id
  validate_category workspace_id payload.category_id
  ticket ← Repo.create workspace_id actor_user_id payload
  record_success "servicedesk.ticket.created" workspace_id actor_user_id "ticket" ticket.id
      (("status", Meta.status ticket.status) ∷ ("priority", Meta.priority ticket.priority) ∷ [])
  commit
  get workspace_id ticket.id

-- `limit = max(1, min(limit, 100))`, `offset = max(0, offset)`
unfoldable pub list : TicketQueries → ℕ → TicketFilters → ℤ → ℤ → Action (List Ticket × ℕ)
list sql workspace_id filters limit offset =
    query
      (Repo.list_in_workspace sql workspace_id filters (clamp_limit limit) (clamp_offset offset))

-- schemas/ticket.py: the fields of a request to update a ticket.
pub record TicketUpdateRequest : Type 0 where
  pub subject : Option String
  pub description : Option String
  pub priority : Option TicketPriority
  pub queue_id : Option ℕ
  pub category_id : Option ℕ

-- The attributes that a request gives are assigned, the others stay.
abbrev pub revise : TicketUpdateRequest → Ticket → Ticket
revise payload t = record t {
  queue_id = or_keep_some payload.queue_id t.queue_id;
  category_id = or_keep_some payload.category_id t.category_id;
  subject = or_keep payload.subject t.subject;
  description = or_keep payload.description t.description;
  priority = or_keep payload.priority t.priority;
}

unfoldable pub update : ℕ → ℕ → ℕ → TicketUpdateRequest → Action Ticket
unfolding get Repo.assign_fields record_event
update workspace_id actor_user_id ticket_id payload = do
  ticket ← get workspace_id ticket_id
  validate_queue workspace_id payload.queue_id
  Repo.assign_fields ticket.id
      (λ t. record t { queue_id = or_keep_some payload.queue_id t.queue_id })
  validate_category workspace_id payload.category_id
  Repo.assign_fields ticket.id (λ t. record t {
    category_id = or_keep_some payload.category_id t.category_id;
    subject = or_keep payload.subject t.subject;
    description = or_keep payload.description t.description;
    priority = or_keep payload.priority t.priority;
  })
  record_success "servicedesk.ticket.updated" workspace_id actor_user_id "ticket" ticket.id []
  commit
  get workspace_id ticket.id

-- The value of a StrEnum member.
unfoldable pub status_value : TicketStatus → String
status_value TicketStatus.new = "new"
status_value TicketStatus.opened = "open"
status_value TicketStatus.in_progress = "in_progress"
status_value TicketStatus.waiting_customer = "waiting_customer"
status_value TicketStatus.waiting_internal = "waiting_internal"
status_value TicketStatus.resolved = "resolved"
status_value TicketStatus.closed = "closed"

unfoldable pub transition_message : TicketStatus → TicketStatus → String
unfolding status_value
transition_message current target = text_append "Cannot transition ticket from '" (
    text_append (status_value current)
      (text_append "' to '" (text_append (status_value target) "'")))

unfoldable pub transition_status : ℕ → ℕ → ℕ → TicketStatus → Action Ticket
unfolding get Repo.assign_fields record_event
transition_status workspace_id actor_user_id ticket_id target_status = do
  ticket ← get workspace_id ticket_id
  raise_if (not (is_transition_allowed ticket.status target_status))
      (validation (transition_message ticket.status target_status))
  Repo.assign_fields ticket.id (λ t. record t { status = target_status })
  record_success "servicedesk.ticket.status_changed" workspace_id actor_user_id "ticket" ticket.id
      (("from", Meta.status ticket.status) ∷ ("to", Meta.status target_status) ∷ [])
  commit
  get workspace_id ticket.id

-- The JSON value of an optional user id.
abbrev assignee_meta : Option ℕ → Meta
assignee_meta none = Meta.null
assignee_meta (some user_id) = Meta.key user_id

unfoldable pub assign : ℕ → ℕ → ℕ → Option ℕ → Action Ticket
unfolding get Repo.assign_fields Repo.create_assignment record_event
assign workspace_id actor_user_id ticket_id assignee_user_id = do
  ticket ← get workspace_id ticket_id
  validate_assignee workspace_id assignee_user_id
  Repo.assign_fields ticket.id (λ t. record t { assignee_user_id = assignee_user_id })
  Repo.create_assignment workspace_id ticket_id assignee_user_id actor_user_id
  record_success "servicedesk.ticket.assigned" workspace_id actor_user_id "ticket" ticket.id
      (("assignee_user_id", assignee_meta assignee_user_id) ∷ [])
  commit
  get workspace_id ticket.id

unfoldable pub assignment_history : ℕ → ℕ → Action (List TicketAssignment)
unfolding get
assignment_history workspace_id ticket_id = do
  get workspace_id ticket_id
  query (Repo.list_for_ticket workspace_id ticket_id)

unfoldable pub add_tag : ℕ → ℕ → ℕ → ℕ → Action Ticket
unfolding get Repo.add_ticket_tag record_event
add_tag workspace_id actor_user_id ticket_id tag_id = do
  get workspace_id ticket_id
  tag ← query (Repo.get_tag workspace_id tag_id)
  raise_if (is_none tag) (validation "tag_id does not refer to a tag in this workspace")
  Repo.add_ticket_tag ticket_id tag_id
  record_success "servicedesk.ticket.tag_added" workspace_id actor_user_id "ticket" ticket_id
      (("tag_id", Meta.key tag_id) ∷ [])
  commit
  get workspace_id ticket_id

unfoldable pub remove_tag : ℕ → ℕ → ℕ → ℕ → Action Ticket
unfolding get Repo.remove_ticket_tag record_event
remove_tag workspace_id actor_user_id ticket_id tag_id = do
  get workspace_id ticket_id
  Repo.remove_ticket_tag ticket_id tag_id
  record_success "servicedesk.ticket.tag_removed" workspace_id actor_user_id "ticket" ticket_id
      (("tag_id", Meta.key tag_id) ∷ [])
  commit
  get workspace_id ticket_id
