-- ===== src/Ticket/Router.antt =====
-- api/v1/tickets.py: each route first requires its permission, and acts as the member's user.
use support_endpoint.Prelude.{ℕ, ℤ, Option, List, not}
use support_endpoint.Models.{TicketStatus, Ticket, TicketAssignment}
use support_endpoint.Session.{Action, authorization, ◌>>=◌, ◌>>◌, pure, query, raise_if}
use support_endpoint.Authz.{require_permission, permission_codes_for_role, has_code}
use support_endpoint.Authz.Permissions.{
  tickets_assign, tickets_close, tickets_create, tickets_read, tickets_update,
}
use support_endpoint.Ticket.Repo.{TicketCreateRequest, TicketFilters, TicketQueries}
use support_endpoint.Ticket.Service
use support_endpoint.Ticket.Service.{TicketUpdateRequest}

unfoldable pub create_ticket : ℕ → ℕ → TicketCreateRequest → Action Ticket
create_ticket workspace_id user_id payload = do
  membership ← require_permission tickets_create workspace_id user_id
  Service.create workspace_id membership.user_id payload

unfoldable pub list_tickets :
    TicketQueries → ℕ → ℕ → TicketFilters → ℤ → ℤ → Action (List Ticket × ℕ)
list_tickets sql workspace_id user_id filters limit offset = do
  require_permission tickets_read workspace_id user_id
  Service.list sql workspace_id filters limit offset

unfoldable pub get_ticket : ℕ → ℕ → ℕ → Action Ticket
get_ticket workspace_id user_id ticket_id = do
  require_permission tickets_read workspace_id user_id
  Service.get workspace_id ticket_id

unfoldable pub update_ticket : ℕ → ℕ → ℕ → TicketUpdateRequest → Action Ticket
update_ticket workspace_id user_id ticket_id payload = do
  membership ← require_permission tickets_update workspace_id user_id
  Service.update workspace_id membership.user_id ticket_id payload

-- `if payload.status == CLOSED: …`
unfoldable pub require_close : ℕ → TicketStatus → Action (Unit {0})
require_close role_id TicketStatus.closed = do
  caller_permissions ← query (permission_codes_for_role role_id)
  raise_if (not (has_code tickets_close caller_permissions))
      (authorization "Closing a ticket requires the tickets.close permission")
require_close role_id _ = pure tt

unfoldable pub transition_ticket : ℕ → ℕ → ℕ → TicketStatus → Action Ticket
unfolding require_close
transition_ticket workspace_id user_id ticket_id status = do
  membership ← require_permission tickets_update workspace_id user_id
  require_close membership.role_id status
  Service.transition_status workspace_id membership.user_id ticket_id status

unfoldable pub assign_ticket : ℕ → ℕ → ℕ → Option ℕ → Action Ticket
assign_ticket workspace_id user_id ticket_id assignee_user_id = do
  membership ← require_permission tickets_assign workspace_id user_id
  Service.assign workspace_id membership.user_id ticket_id assignee_user_id

unfoldable pub list_assignment_history : ℕ → ℕ → ℕ → Action (List TicketAssignment)
list_assignment_history workspace_id user_id ticket_id = do
  require_permission tickets_read workspace_id user_id
  Service.assignment_history workspace_id ticket_id

unfoldable pub add_tag : ℕ → ℕ → ℕ → ℕ → Action Ticket
add_tag workspace_id user_id ticket_id tag_id = do
  membership ← require_permission tickets_update workspace_id user_id
  Service.add_tag workspace_id membership.user_id ticket_id tag_id

unfoldable pub remove_tag : ℕ → ℕ → ℕ → ℕ → Action Ticket
remove_tag workspace_id user_id ticket_id tag_id = do
  membership ← require_permission tickets_update workspace_id user_id
  Service.remove_tag workspace_id membership.user_id ticket_id tag_id
