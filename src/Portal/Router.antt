-- ===== src/Portal/Router.antt =====
-- api/v1/portal.py. Only the link of a client to an account is for members of the workspace; the
-- other routes are for any account, and the links of the account say what it may see.
use support_endpoint.Prelude.{ℕ, String, List}
use support_endpoint.Models.{ClientUserLink, Message, Ticket, TicketPriority}
use support_endpoint.Session.{Action, ◌>>=◌}
use support_endpoint.Authz.{require_permission}
use support_endpoint.Authz.Permissions.{clients_write}
use support_endpoint.Portal.Service
use support_endpoint.Portal.Service.{PortalAccount, PortalQueries}

-- schemas/portal.py: the fields of a request to create a ticket.
pub record PortalTicketCreateRequest : Type 0 where
  pub subject : String
  pub description : String
  pub priority : TicketPriority

module _ (lib : PortalQueries) where
  unfoldable pub link_client_user : ℕ → ℕ → ℕ → String → Action ClientUserLink
  link_client_user workspace_id client_id caller user_email = do
    membership ← require_permission clients_write workspace_id caller
    Service.link_client_user lib workspace_id client_id user_email membership.user_id

  unfoldable pub portal_accounts : ℕ → Action (List PortalAccount)
  portal_accounts user_id = Service.accounts lib user_id

  unfoldable pub portal_tickets : ℕ → ℕ → Action (List Ticket)
  portal_tickets user_id link_id = Service.list_tickets lib user_id link_id

unfoldable pub portal_create_ticket : ℕ → ℕ → PortalTicketCreateRequest → Action Ticket
portal_create_ticket user_id link_id payload =
    Service.create_ticket user_id link_id payload.subject payload.description payload.priority

unfoldable pub portal_ticket : ℕ → ℕ → ℕ → Action Ticket
portal_ticket user_id link_id ticket_id = Service.get_ticket user_id link_id ticket_id

unfoldable pub portal_messages : ℕ → ℕ → ℕ → Action (List Message)
portal_messages user_id link_id ticket_id = Service.list_messages user_id link_id ticket_id

unfoldable pub portal_add_message : ℕ → ℕ → ℕ → String → Action Message
portal_add_message user_id link_id ticket_id body =
    Service.add_message user_id link_id ticket_id body
