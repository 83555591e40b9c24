-- ===== src/Operations/Router.antt =====
-- api/v1/operations.py: each route first requires its permission.
use support_endpoint.Prelude.{ℕ, Option, List}
use support_endpoint.Models.{
  TaskStatus, TicketPriority, SupportTask, SlaPolicy, TicketSla, Notification,
}
use support_endpoint.Session.{Action, ◌>>=◌, ◌>>◌}
use support_endpoint.Authz.{require_permission}
use support_endpoint.Authz.Permissions.{
  notifications_read, sla_manage, sla_read, tasks_read, tasks_write,
}
use support_endpoint.Operations.Repo.{OperationsQueries}
use support_endpoint.Operations.Service
use support_endpoint.Operations.Service.{TaskCreateRequest}
use support_endpoint.Operations.Evaluation
use support_endpoint.Operations.Evaluation.{Counters}

unfoldable pub create_task : ℕ → ℕ → ℕ → TaskCreateRequest → Action SupportTask
create_task workspace_id user_id ticket_id payload = do
  membership ← require_permission tasks_write workspace_id user_id
  Service.create_task workspace_id membership.user_id ticket_id payload

unfoldable pub list_tasks : OperationsQueries → ℕ → ℕ → Option ℕ → Action (List SupportTask)
list_tasks sql workspace_id user_id ticket_id = do
  require_permission tasks_read workspace_id user_id
  Service.list_tasks sql workspace_id ticket_id

unfoldable pub set_task_status : ℕ → ℕ → ℕ → TaskStatus → Action SupportTask
set_task_status workspace_id user_id task_id status = do
  membership ← require_permission tasks_write workspace_id user_id
  Service.set_task_status workspace_id task_id membership.user_id status

unfoldable pub list_sla_policies : OperationsQueries → ℕ → ℕ → Action (List SlaPolicy)
list_sla_policies sql workspace_id user_id = do
  require_permission sla_read workspace_id user_id
  Service.list_policies sql workspace_id

unfoldable pub upsert_sla_policy : ℕ → ℕ → TicketPriority → ℕ → ℕ → ℕ → Action SlaPolicy
upsert_sla_policy workspace_id user_id priority first_response resolution warning = do
  membership ← require_permission sla_manage workspace_id user_id
  Service.upsert_policy workspace_id membership.user_id priority first_response resolution warning

unfoldable pub get_ticket_sla : ℕ → ℕ → ℕ → Action TicketSla
get_ticket_sla workspace_id user_id ticket_id = do
  require_permission sla_read workspace_id user_id
  Service.get_ticket_sla workspace_id ticket_id

unfoldable pub evaluate_sla : ℕ → ℕ → Action Counters
evaluate_sla workspace_id user_id = do
  require_permission sla_manage workspace_id user_id
  Evaluation.evaluate_sla workspace_id

unfoldable pub list_notifications : OperationsQueries → ℕ → ℕ → Action (List Notification)
list_notifications sql workspace_id user_id = do
  membership ← require_permission notifications_read workspace_id user_id
  Service.list_notifications sql workspace_id membership.user_id

unfoldable pub mark_notification_read : ℕ → ℕ → ℕ → Action Notification
mark_notification_read workspace_id user_id notification_id = do
  membership ← require_permission notifications_read workspace_id user_id
  Service.mark_notification_read workspace_id membership.user_id notification_id
