-- ===== src/Operations/Service.antt =====
-- services/operations_service.py
use support_endpoint.Prelude.{
  ℕ, ◌+◌, String, not, ◌||◌, Option, none, some, List, [], ◌∷◌, is_none, leb, min,
}
use support_endpoint.Models.{
  TaskStatus, task_status_eq, TicketPriority, NotificationType, Ticket, SupportTask, SlaPolicy,
  TicketSla, Notification, Meta,
}
use support_endpoint.Session.{
  Action, not_found, validation, ◌>>=◌, ◌>>◌, pure, query, or_raise, raise_if, commit, utcnow,
}
use Prim.Native.String.{◌++◌ as text_append}
use support_endpoint.Audit.{record_event, record_success}
use support_endpoint.Authz.{get_membership}
use support_endpoint.Ticket.Repo.{get_in_workspace}
use support_endpoint.Operations.Repo
use support_endpoint.Operations.Repo.{OperationsQueries}
use support_endpoint.Operations.Clock.{
  minutes, default_sla, note_response, resolved_event, note_resolution,
}

unfoldable pub get_ticket : ℕ → ℕ → Action Ticket
get_ticket workspace_id ticket_id = do
  ticket ← query (get_in_workspace workspace_id ticket_id)
  or_raise ticket (not_found "Ticket not found")

unfoldable pub validate_member : ℕ → Option ℕ → Action (Unit {0})
validate_member workspace_id none = pure tt
validate_member workspace_id (some user_id) = do
  membership ← query (get_membership workspace_id user_id)
  raise_if (is_none membership) (validation "assignee_user_id is not a member of this workspace")

unfoldable pub default_policy : ℕ → TicketPriority → Option SlaPolicy → Action SlaPolicy
unfolding Repo.upsert_policy default_sla
default_policy workspace_id priority (some policy) = pure policy
default_policy workspace_id priority none =
    let (first_response, resolution, warning) = default_sla priority in
    Repo.upsert_policy workspace_id priority first_response resolution warning

unfoldable pub ensure_policy : ℕ → TicketPriority → Action SlaPolicy
unfolding default_policy
ensure_policy workspace_id priority = do
  policy ← query (Repo.get_policy workspace_id priority)
  default_policy workspace_id priority policy

unfoldable pub attach_if_missing : Ticket → Option TicketSla → Action (Unit {0})
unfolding ensure_policy Repo.create_ticket_sla
attach_if_missing ticket (some existing) = pure tt
attach_if_missing ticket none = do
  policy ← ensure_policy ticket.workspace_id ticket.priority
  Repo.create_ticket_sla ticket.workspace_id ticket.id policy.id
      (ticket.created_at + minutes policy.first_response_minutes)
      (ticket.created_at + minutes policy.resolution_minutes)
  pure tt

unfoldable pub attach_sla : Ticket → Action (Unit {0})
unfolding attach_if_missing
attach_sla ticket = do
  existing ← query (Repo.get_ticket_sla ticket.workspace_id ticket.id)
  attach_if_missing ticket existing

unfoldable pub attach_each : List Ticket → Action (Unit {0})
unfolding attach_sla
attach_each [] = pure tt
attach_each (ticket ∷ tickets) = do attach_sla ticket; attach_each tickets

unfoldable pub materialize_workspace_slas : ℕ → Action (Unit {0})
unfolding attach_each
materialize_workspace_slas workspace_id = do
  tickets ← query (Repo.tickets_without_sla workspace_id)
  attach_each tickets

-- The clock of a ticket, which is attached if there is none.
unfoldable pub load_sla : Ticket → Option TicketSla → Action TicketSla
unfolding attach_sla
load_sla ticket (some item) = pure item
load_sla ticket none = do
  attach_sla ticket
  item ← query (Repo.get_ticket_sla ticket.workspace_id ticket.id)
  or_raise item (not_found "Ticket SLA not found")

unfoldable pub refresh_sla_from_history : Ticket → Action TicketSla
unfolding load_sla Repo.assign_sla
refresh_sla_from_history ticket = do
  existing ← query (Repo.get_ticket_sla ticket.workspace_id ticket.id)
  item ← load_sla ticket existing
  first_outbound ← query (Repo.first_outbound_at ticket.workspace_id ticket.id)
  events ← query (Repo.ticket_status_events ticket.workspace_id ticket.id)
  let refreshed : TicketSla =
      note_resolution (resolved_event events) (note_response first_outbound item)
  Repo.assign_sla item.id (λ _. refreshed)
  pure refreshed

notify_assignee : ℕ → Ticket → String → Option ℕ → Action (Unit {0})
unfolding Repo.create_notification
notify_assignee workspace_id ticket title none = pure tt
notify_assignee workspace_id ticket title (some user_id) = do
  Repo.create_notification workspace_id user_id NotificationType.task_assigned
      (text_append "Task assigned: " title) (text_append "Ticket: " ticket.subject) (some ticket.id)
  pure tt

-- Nothing calls it.
unfoldable pub notify_ticket_assignment : Ticket → Option ℕ → Action (Unit {0})
unfolding Repo.create_notification
notify_ticket_assignment ticket none = pure tt
notify_ticket_assignment ticket (some user_id) = do
  Repo.create_notification ticket.workspace_id user_id NotificationType.ticket_assigned
      (text_append "Ticket assigned: " ticket.subject) "" (some ticket.id)
  pure tt

abbrev user_meta : Option ℕ → Meta
user_meta none = Meta.null
user_meta (some i) = Meta.key i

-- schemas/operations.py: the fields of a request to create a task.
pub record TaskCreateRequest : Type 0 where
  pub title : String
  pub description : String
  pub assignee_user_id : Option ℕ
  pub due_at : Option ℕ

unfoldable pub create_task : ℕ → ℕ → ℕ → TaskCreateRequest → Action SupportTask
unfolding get_ticket validate_member Repo.create_task notify_assignee record_event
create_task workspace_id actor_user_id ticket_id payload = do
  ticket ← get_ticket workspace_id ticket_id
  validate_member workspace_id payload.assignee_user_id
  task ←
      Repo.create_task workspace_id ticket_id actor_user_id payload.assignee_user_id payload.title
        payload.description payload.due_at
  notify_assignee workspace_id ticket payload.title payload.assignee_user_id
  record_success "operations.task.created" workspace_id actor_user_id "support_task" task.id (
      ("ticket_id", Meta.key ticket_id)
      ∷ ("assignee_user_id", user_meta payload.assignee_user_id)
      ∷ [])
  commit
  pure task

check_filter : ℕ → Option ℕ → Action (Unit {0})
unfolding get_ticket
check_filter workspace_id none = pure tt
check_filter workspace_id (some ticket_id) = do get_ticket workspace_id ticket_id; pure tt

unfoldable pub list_tasks : OperationsQueries → ℕ → Option ℕ → Action (List SupportTask)
unfolding check_filter
list_tasks sql workspace_id ticket_id = do
  check_filter workspace_id ticket_id
  query (Repo.list_tasks sql workspace_id ticket_id)

-- `task.status = status`, and `task.completed_at` of a task that is done.
unfoldable pub complete : TaskStatus → ℕ → SupportTask → SupportTask
complete TaskStatus.done now task = record task {
  status = TaskStatus.done;
  completed_at = some now;
}
complete status now task = record task { status = status }

unfoldable pub set_task_status : ℕ → ℕ → ℕ → TaskStatus → Action SupportTask
unfolding Repo.assign_task complete record_event
set_task_status workspace_id task_id actor_user_id status = do
  found ← query (Repo.get_task workspace_id task_id)
  task ← or_raise found (not_found "Task not found")
  raise_if (not (task_status_eq task.status TaskStatus.opened))
      (validation "Only open tasks can change status")
  raise_if
      (not (task_status_eq status TaskStatus.done || task_status_eq status TaskStatus.cancelled))
      (validation "Task can only be completed or cancelled")
  now ← utcnow
  Repo.assign_task task.id (complete status now)
  record_success "operations.task.status_changed" workspace_id actor_user_id "support_task" task.id
      (("status", Meta.task_status status) ∷ [])
  commit
  pure (complete status now task)

unfoldable pub upsert_policy : ℕ → ℕ → TicketPriority → ℕ → ℕ → ℕ → Action SlaPolicy
unfolding Repo.upsert_policy record_event
upsert_policy workspace_id actor_user_id priority first_response resolution warning = do
  raise_if (leb (min first_response resolution) warning)
      (validation "warning window must be smaller than both SLA targets")
  policy ← Repo.upsert_policy workspace_id priority first_response resolution warning
  record_success "operations.sla_policy.updated" workspace_id actor_user_id "sla_policy" policy.id
      (("priority", Meta.priority priority) ∷ [])
  commit
  pure policy

unfoldable pub list_policies : OperationsQueries → ℕ → Action (List SlaPolicy)
unfolding materialize_workspace_slas
list_policies sql workspace_id = do
  materialize_workspace_slas workspace_id
  query (Repo.list_policies sql workspace_id)

unfoldable pub get_ticket_sla : ℕ → ℕ → Action TicketSla
unfolding get_ticket refresh_sla_from_history
get_ticket_sla workspace_id ticket_id = do
  ticket ← get_ticket workspace_id ticket_id
  item ← refresh_sla_from_history ticket
  commit
  pure item

unfoldable pub list_notifications : OperationsQueries → ℕ → ℕ → Action (List Notification)
list_notifications sql workspace_id user_id =
    query (Repo.list_notifications sql workspace_id user_id)

mark_if_unread : Notification → Option ℕ → Action Notification
unfolding Repo.assign_notification
mark_if_unread item (some read_at) = pure item
mark_if_unread item none = do
  now ← utcnow
  Repo.assign_notification item.id (λ n. record n { read_at = some now })
  commit
  pure (record item { read_at = some now })

unfoldable pub mark_notification_read : ℕ → ℕ → ℕ → Action Notification
unfolding mark_if_unread
mark_notification_read workspace_id user_id notification_id = do
  found ← query (Repo.get_notification workspace_id user_id notification_id)
  item ← or_raise found (not_found "Notification not found")
  mark_if_unread item item.read_at
