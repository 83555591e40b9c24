-- ===== src/Operations/Repo.antt =====
-- repositories/operations_repo.py
use support_endpoint.Prelude.{
  sort_by, ℕ, String, Bool, true, false, ◌&&◌, ◌||◌, Option, none, some, List, [], ◌∷◌, push, find,
  select, modify_where, any, not, ◌==◌, str_eq, holds, unless_none, is_none, if◌then◌else◌, min,
}
use support_endpoint.Models.{
  TicketPriority, priority_eq, TaskStatus, NotificationType, MessageDirection, direction_eq, Ticket,
  SupportTask, SlaPolicy, TicketSla, Notification, AuditEvent, Meta, Conversation, Message,
}
use support_endpoint.Session.{
  Db, Action, unhandled, ◌>>=◌, ◌>>◌, pure, query, modify, new_uuid, utcnow, raise_if,
}

-- `AuditEvent.resource_id == ticket_id`
abbrev pub is_key : Meta → ℕ → Bool
is_key (Meta.key j) i = j == i
is_key _ i = false

-- The test of `ticket_status_events`.
abbrev pub is_status_event : ℕ → ℕ → AuditEvent → Bool
is_status_event workspace_id ticket_id e =
    holds e.workspace_id workspace_id
    && str_eq e.resource_type "ticket"
    && is_key e.resource_id ticket_id
    && str_eq e.action "servicedesk.ticket.status_changed"

unfoldable pub ticket_status_events : ℕ → ℕ → Db → List AuditEvent
ticket_status_events workspace_id ticket_id d =
    sort_by (λ (e : AuditEvent). e.created_at)
      (select (is_status_event workspace_id ticket_id) d.audit_events)

-- `metadata.get(name)`
unfoldable pub metadata_get : String → List (String × Meta) → Option Meta
metadata_get name [] = none
metadata_get name ((key, value) ∷ rest) =
    if str_eq key name then some value else metadata_get name rest

-- What the database does for a listing: `order_by(created_at.desc())` of two tables, and the
-- order of the policies by their column `priority`.
pub record OperationsQueries : Type 0 where
  pub newest_tasks : List SupportTask → List SupportTask
  pub by_priority : List SlaPolicy → List SlaPolicy
  pub newest_notifications : List Notification → List Notification

-- The row that `create_task` inserts, with its column defaults.
abbrev pub new_task : ℕ → ℕ → ℕ → ℕ → ℕ → Option ℕ → String → String → Option ℕ → SupportTask
new_task i now workspace_id ticket_id creator_user_id assignee_user_id title description due_at =
    record {
      id = i;
      workspace_id = workspace_id;
      ticket_id = ticket_id;
      creator_user_id = creator_user_id;
      assignee_user_id = assignee_user_id;
      title = title;
      description = description;
      status = TaskStatus.opened;
      due_at = due_at;
      completed_at = none;
      created_at = now;
    }

unfoldable pub create_task : ℕ → ℕ → ℕ → Option ℕ → String → String → Option ℕ → Action SupportTask
create_task workspace_id ticket_id creator_user_id assignee_user_id title description due_at = do
  i ← new_uuid
  now ← utcnow
  let item : SupportTask =
      new_task i now workspace_id ticket_id creator_user_id assignee_user_id title description
        due_at
  modify (λ d. record d { tasks = push item d.tasks })
  pure item

unfoldable pub get_task : ℕ → ℕ → Db → Option SupportTask
get_task workspace_id task_id d =
    find (λ (t : SupportTask). t.id == task_id && t.workspace_id == workspace_id) d.tasks

-- The ids of a request are uuids, so `if ticket_id:` holds for every id given.
unfoldable pub list_tasks : OperationsQueries → ℕ → Option ℕ → Db → List SupportTask
list_tasks sql workspace_id ticket_id d = sql.newest_tasks (
    select
      (λ (t : SupportTask).
        t.workspace_id == workspace_id && unless_none ticket_id (λ i. t.ticket_id == i))
      d.tasks)

-- Assigning to attributes of a loaded task.
unfoldable pub assign_task : ℕ → (SupportTask → SupportTask) → Action (Unit {0})
assign_task task_id f =
    modify λ d. record d { tasks = modify_where (λ (t : SupportTask). t.id == task_id) f d.tasks }

unfoldable pub get_policy : ℕ → TicketPriority → Db → Option SlaPolicy
get_policy workspace_id priority d =
    find
      (λ (p : SlaPolicy).
        p.workspace_id == workspace_id && priority_eq p.priority priority && p.is_active)
      d.policies

-- `db.get(SLAPolicy, policy_id)`
unfoldable pub get_policy_by_id : ℕ → Db → Option SlaPolicy
get_policy_by_id policy_id d = find (λ (p : SlaPolicy). p.id == policy_id) d.policies

-- The query of `upsert_policy`.
unfoldable pub find_policy : ℕ → TicketPriority → Db → Option SlaPolicy
find_policy workspace_id priority d =
    find (λ (p : SlaPolicy). p.workspace_id == workspace_id && priority_eq p.priority priority)
      d.policies

abbrev set_targets : ℕ → ℕ → ℕ → SlaPolicy → SlaPolicy
set_targets first_response resolution warning item = record item {
  first_response_minutes = first_response;
  resolution_minutes = resolution;
  warning_minutes_before = warning;
  is_active = true;
}

unfoldable pub write_policy : ℕ → TicketPriority → ℕ → ℕ → ℕ → Option SlaPolicy → Action SlaPolicy
write_policy workspace_id priority first_response resolution warning none = do
  i ← new_uuid
  let item : SlaPolicy = record {
    id = i;
    workspace_id = workspace_id;
    priority = priority;
    first_response_minutes = first_response;
    resolution_minutes = resolution;
    warning_minutes_before = warning;
    is_active = true;
  }
  modify (λ d. record d { policies = push item d.policies })
  pure item
write_policy workspace_id priority first_response resolution warning (some item) = do
  let change : SlaPolicy → SlaPolicy = set_targets first_response resolution warning
  modify (λ d. record d {
    policies = modify_where (λ (p : SlaPolicy). p.id == item.id) change d.policies;
  })
  pure (change item)

unfoldable pub upsert_policy : ℕ → TicketPriority → ℕ → ℕ → ℕ → Action SlaPolicy
unfolding find_policy write_policy
upsert_policy workspace_id priority first_response resolution warning = do
  item ← query (find_policy workspace_id priority)
  write_policy workspace_id priority first_response resolution warning item

unfoldable pub list_policies : OperationsQueries → ℕ → Db → List SlaPolicy
list_policies sql workspace_id d =
    sql.by_priority (select (λ (p : SlaPolicy). p.workspace_id == workspace_id) d.policies)

-- The row that `create_ticket_sla` inserts, with its column defaults.
abbrev pub new_ticket_sla : ℕ → ℕ → ℕ → ℕ → ℕ → ℕ → TicketSla
new_ticket_sla i workspace_id ticket_id policy_id first_response_due_at resolution_due_at = record {
  id = i;
  workspace_id = workspace_id;
  ticket_id = ticket_id;
  policy_id = policy_id;
  first_response_due_at = first_response_due_at;
  resolution_due_at = resolution_due_at;
  first_response_at = none;
  resolved_at = none;
  first_response_warning_sent = false;
  resolution_warning_sent = false;
  first_response_breached = false;
  resolution_breached = false;
}

-- The constraint `uq_ticket_sla_ticket` makes the flush fail on a second row for a ticket.
unfoldable pub create_ticket_sla : ℕ → ℕ → ℕ → ℕ → ℕ → Action TicketSla
create_ticket_sla workspace_id ticket_id policy_id first_response_due_at resolution_due_at = do
  i ← new_uuid
  taken ← query (λ d. any (λ (s : TicketSla). s.ticket_id == ticket_id) d.slas)
  raise_if taken (unhandled "IntegrityError")
  let item : TicketSla =
      new_ticket_sla i workspace_id ticket_id policy_id first_response_due_at resolution_due_at
  modify (λ d. record d { slas = push item d.slas })
  pure item

unfoldable pub get_ticket_sla : ℕ → ℕ → Db → Option TicketSla
get_ticket_sla workspace_id ticket_id d =
    find (λ (s : TicketSla). s.workspace_id == workspace_id && s.ticket_id == ticket_id) d.slas

-- Assigning to attributes of a loaded clock.
unfoldable pub assign_sla : ℕ → (TicketSla → TicketSla) → Action (Unit {0})
assign_sla sla_id f =
    modify λ d. record d { slas = modify_where (λ (s : TicketSla). s.id == sla_id) f d.slas }

unfoldable pub tickets_without_sla : ℕ → Db → List Ticket
tickets_without_sla workspace_id d =
    select
      (λ (t : Ticket).
        t.workspace_id == workspace_id && not (any (λ (s : TicketSla). s.ticket_id == t.id) d.slas))
      d.tickets

unfoldable pub list_active_slas : ℕ → Db → List TicketSla
list_active_slas workspace_id d =
    select
      (λ (s : TicketSla).
        s.workspace_id == workspace_id && (is_none s.first_response_at || is_none s.resolved_at))
      d.slas

earliest : Option ℕ → List Message → Option ℕ
earliest best [] = best
earliest none (m ∷ ms) = earliest (some m.created_at) ms
earliest (some t) (m ∷ ms) = earliest (some (min t m.created_at)) ms

unfoldable pub first_outbound_at : ℕ → ℕ → Db → Option ℕ
unfolding earliest
first_outbound_at workspace_id ticket_id d = earliest none (
    select
      (λ (m : Message).
        any
          (λ (c : Conversation).
            c.id == m.conversation_id && c.workspace_id == workspace_id && c.ticket_id == ticket_id)
          d.conversations
        && m.workspace_id == workspace_id
        && direction_eq m.direction MessageDirection.outbound)
      d.messages)

unfoldable pub create_notification :
    ℕ → ℕ → NotificationType → String → String → Option ℕ → Action Notification
create_notification workspace_id user_id type title body ticket_id = do
  i ← new_uuid
  now ← utcnow
  let item : Notification = record {
    id = i;
    workspace_id = workspace_id;
    user_id = user_id;
    ticket_id = ticket_id;
    type = type;
    title = title;
    body = body;
    read_at = none;
    created_at = now;
  }
  modify (λ d. record d { notifications = push item d.notifications })
  pure item

unfoldable pub list_notifications : OperationsQueries → ℕ → ℕ → Db → List Notification
list_notifications sql workspace_id user_id d = sql.newest_notifications (
    select (λ (n : Notification). n.workspace_id == workspace_id && n.user_id == user_id)
      d.notifications)

unfoldable pub get_notification : ℕ → ℕ → ℕ → Db → Option Notification
get_notification workspace_id user_id notification_id d =
    find
      (λ (n : Notification).
        n.id == notification_id && n.workspace_id == workspace_id && n.user_id == user_id)
      d.notifications

-- Assigning to attributes of a loaded notification.
unfoldable pub assign_notification : ℕ → (Notification → Notification) → Action (Unit {0})
assign_notification notification_id f = modify λ d. record d {
  notifications = modify_where (λ (n : Notification). n.id == notification_id) f d.notifications;
}
