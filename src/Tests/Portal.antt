-- ===== src/Tests/Portal.antt =====
-- The theorems about the portal, for an account that is linked to the client of the printer's
-- ticket.
use support_endpoint.Prelude.{◌≡◌, refl, true, List, [], ◌∷◌, find}
use support_endpoint.Models.{ClientUserLink}
use support_endpoint.Session.{Db, Session, request}
use support_endpoint.Authz.Permissions.{clients_write}
use support_endpoint.Samples.{desk_db, desk}
use support_endpoint.Ticket.Repo.{get_client}
use support_endpoint.Portal.Service.{PortalQueries, messages_of}
use support_endpoint.Portal.Router.{
  portal_tickets, portal_ticket, portal_messages, portal_add_message,
}
use support_endpoint.Portal.Reads.{portal_reads-same}
use support_endpoint.Portal.Messages.{Sends, portal_add_message-Sends}
use support_endpoint.Portal.Links.{LinkRequest, HasLinks, serve_links, serve_links-HasLinks}

abbrev plain_portal : PortalQueries
plain_portal = record { lower = λ s. s; newest_first = λ ts. ts; by_names = λ rows. rows }

-- The client 10 is linked to the account 8.
abbrev acme_link : ClientUserLink
acme_link = record { id = 80; workspace_id = 1; client_id = 10; user_id = 8; linked_by_user_id = 3 }

abbrev portal_db : Db
portal_db = record desk_db {
  client_user_links = acme_link ∷ [];
  users =
      record { id = 8; email = "a@acme.test"; password_hash = ""; full_name = ""; is_active = true }
      ∷ record {
        id = 9;
        email = "b@acme.test";
        password_hash = "";
        full_name = "";
        is_active = true;
      }
      ∷ [];
  permissions = record { id = 9; code = clients_write; description = "" } ∷ desk_db.permissions;
  role_permissions = record { id = 54; role_id = 4; permission_id = 9 } ∷ desk_db.role_permissions;
}

abbrev portal : Session
portal = record desk { stored = portal_db; work = portal_db }

-- The same, with an internal note on the ticket.
abbrev noted_db : Db
noted_db = record portal_db {
  internal_notes =
      record {
        id = 90;
        workspace_id = 1;
        ticket_id = 20;
        author_user_id = 3;
        body = "Ask again";
        created_at = 5;
      }
      ∷ [];
}

abbrev noted : Session
noted = record desk { stored = noted_db; work = noted_db }

portal_reads-same_example :
    ((request (portal_tickets plain_portal 8 80) portal).0
      ≡ (request (portal_tickets plain_portal 8 80) noted).0)
    × ((request (portal_ticket 8 80 20) portal).0 ≡ (request (portal_ticket 8 80 20) noted).0)
    × ((request (portal_messages 8 80 20) portal).0 ≡ (request (portal_messages 8 80 20) noted).0)
unfolding messages_of
portal_reads-same_example =
    portal_reads-same plain_portal 8 80 20 portal noted
      (record { links = refl; tickets = λ i l own. refl; messages = λ i ticket l t own of. refl })

portal_add_message-Sends_example :
    Sends 8 80 20 "Any news?" portal (request (portal_add_message 8 80 20 "Any news?") portal)
portal_add_message-Sends_example = portal_add_message-Sends 8 80 20 "Any news?" portal tt tt

abbrev links : List LinkRequest
links =
    record { workspace_id = 1; client_id = 10; user_id = 3; user_email = "b@acme.test" }
    ∷ record { workspace_id = 1; client_id = 10; user_id = 3; user_email = "a@acme.test" }
    ∷ []

portal-HasLinks : HasLinks portal_db
unfolding get_client find
portal-HasLinks = record { one_to_one = (tt, tt); clients = (refl, tt) }

serve_links-HasLinks_example : HasLinks (serve_links plain_portal links portal).stored
serve_links-HasLinks_example = serve_links-HasLinks plain_portal links portal portal-HasLinks
