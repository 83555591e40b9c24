-- ===== src/Ticket/Calls.antt =====
-- The routes of api/v1/tickets.py that write, as one type of requests, and a server that handles
-- them one after another. A GET writes nothing and has no request here.
use support_endpoint.Prelude.{ℕ, Option}
use support_endpoint.Models.{TicketStatus, Ticket}
use support_endpoint.Session.{Action, Session, Result, request}
use support_endpoint.Ticket.Repo.{TicketCreateRequest}
use support_endpoint.Ticket.Service.{TicketUpdateRequest}
use support_endpoint.Ticket.Router

-- The body of a request: the path's ids and the payload.
pub data Call : Type 0 where
  create : TicketCreateRequest → Call
  update : ℕ → TicketUpdateRequest → Call
  transition : ℕ → TicketStatus → Call
  assign : ℕ → Option ℕ → Call
  add_tag remove_tag : ℕ → ℕ → Call

-- A request of the user `user_id` under the path of the workspace.
unfoldable pub route : ℕ → ℕ → Call → Action Ticket
route workspace_id user_id (Call.create payload) = Router.create_ticket workspace_id user_id payload
route workspace_id user_id (Call.update ticket_id payload) =
    Router.update_ticket workspace_id user_id ticket_id payload
route workspace_id user_id (Call.transition ticket_id status) =
    Router.transition_ticket workspace_id user_id ticket_id status
route workspace_id user_id (Call.assign ticket_id assignee_user_id) =
    Router.assign_ticket workspace_id user_id ticket_id assignee_user_id
route workspace_id user_id (Call.add_tag ticket_id tag_id) =
    Router.add_tag workspace_id user_id ticket_id tag_id
route workspace_id user_id (Call.remove_tag ticket_id tag_id) =
    Router.remove_tag workspace_id user_id ticket_id tag_id

unfoldable pub handle : ℕ → ℕ → Call → Session → Result Ticket × Session
handle workspace_id user_id c s = request (route workspace_id user_id c) s
