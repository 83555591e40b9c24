-- ===== src/Portal/Service.antt =====
-- services/portal_service.py. A row that the portal inserts is the one that the repository of its
-- table would insert.
use support_endpoint.Prelude.{
  sort_by, ℕ, String, Bool, ◌&&◌, ◌||◌, not, Option, none, some, List, [], ◌∷◌, ◌++◌, push, find,
  select, any, ◌==◌, if◌then◌else◌,
}
use support_endpoint.Models.{
  Client, ClientUserLink, Conversation, ConversationChannel, channel_eq, Message, MessageDirection,
  Meta, Ticket, TicketPriority, Workspace,
}
use support_endpoint.Session.{
  Db, Action, not_found, validation, ◌>>=◌, ◌>>◌, pure, query, or_raise, raise_if, modify, new_uuid,
  commit,
}
use support_endpoint.Audit.{record_event, record_success}
use support_endpoint.Auth.Repo.{get_by_email}
use support_endpoint.Ticket.Repo.{get_client, create as insert_ticket}
use support_endpoint.Communication.Repo.{create_conversation, create_message}

-- A row of the join of links, clients and workspaces.
pub record PortalAccount : Type 0 where
  pub link : ClientUserLink
  pub client : Client
  pub workspace : Workspace

-- What the code calls: `str.lower`, and the orders of two listings.
pub record PortalQueries : Type 0 where
  pub lower : String → String
  pub newest_first : List Ticket → List Ticket
  pub by_names : List PortalAccount → List PortalAccount

-- A link of the workspace of the user or of the client.
abbrev pub is_linked : ℕ → ℕ → ℕ → ClientUserLink → Bool
is_linked workspace_id client_id user_id l =
    l.workspace_id == workspace_id && (l.user_id == user_id || l.client_id == client_id)

unfoldable pub insert_link : ℕ → ℕ → ℕ → ℕ → Action ClientUserLink
unfolding record_event
insert_link workspace_id client_id user_id actor_user_id = do
  i ← new_uuid
  let link : ClientUserLink = record {
    id = i;
    workspace_id = workspace_id;
    client_id = client_id;
    user_id = user_id;
    linked_by_user_id = actor_user_id;
  }
  modify (λ d. record d { client_user_links = push link d.client_user_links })
  record_success "portal.client_user_link.created" workspace_id actor_user_id "client_user_link"
      link.id (("client_id", Meta.key client_id) ∷ ("user_id", Meta.key user_id) ∷ [])
  commit
  pure link

-- The end of `link_client_user`, by the link that exists.
unfoldable pub link_if_missing : ℕ → ℕ → ℕ → ℕ → Option ClientUserLink → Action ClientUserLink
unfolding insert_link
link_if_missing workspace_id client_id user_id actor_user_id none =
    insert_link workspace_id client_id user_id actor_user_id
link_if_missing workspace_id client_id user_id actor_user_id (some existing) = do
  raise_if (not (existing.user_id == user_id && existing.client_id == client_id))
      (validation "User or client is already linked in this workspace")
  pure existing

module _ (lib : PortalQueries) where
  unfoldable pub link_client_user : ℕ → ℕ → String → ℕ → Action ClientUserLink
  unfolding link_if_missing
  link_client_user workspace_id client_id user_email actor_user_id = do
    client ← query (get_client workspace_id client_id)
    or_raise client (not_found "Client not found")
    found ← query (get_by_email (lib.lower user_email))
    user ← or_raise found (validation "Active user account not found for this email")
    raise_if (not user.is_active) (validation "Active user account not found for this email")
    existing ← query (λ d. find (is_linked workspace_id client_id user.id) d.client_user_links)
    link_if_missing workspace_id client_id user.id actor_user_id existing

-- The rows of the join for one link.
accounts_with : ClientUserLink → Client → List Workspace → List PortalAccount
accounts_with link client [] = []
accounts_with link client (w ∷ ws) =
    let rest = accounts_with link client ws in
    if w.id == link.workspace_id
    then record { link = link; client = client; workspace = w } ∷ rest
    else rest

accounts_of : ClientUserLink → List Client → Db → List PortalAccount
unfolding accounts_with
accounts_of link [] d = []
accounts_of link (c ∷ cs) d =
    let rest = accounts_of link cs d in
    if c.id == link.client_id && c.is_active
    then accounts_with link c d.workspaces ++ rest
    else rest

join_accounts : List ClientUserLink → Db → List PortalAccount
unfolding accounts_of
join_accounts [] d = []
join_accounts (l ∷ ls) d = accounts_of l d.clients d ++ join_accounts ls d

unfoldable pub accounts : PortalQueries → ℕ → Action (List PortalAccount)
unfolding join_accounts
accounts lib user_id = query λ d.
    lib.by_names
      (join_accounts (select (λ (l : ClientUserLink). l.user_id == user_id) d.client_user_links) d)

-- The link with the id, if it is the user's.
unfoldable pub get_link : ℕ → ℕ → Db → Option ClientUserLink
get_link user_id link_id d =
    find (λ (l : ClientUserLink). l.id == link_id && l.user_id == user_id) d.client_user_links

-- `_link`
unfoldable pub require_link : ℕ → ℕ → Action ClientUserLink
require_link user_id link_id = do
  link ← query (get_link user_id link_id)
  or_raise link (not_found "Portal account not found")

-- The ticket with the id, if it is one of the linked client's.
unfoldable pub get_linked_ticket : ClientUserLink → ℕ → Db → Option Ticket
get_linked_ticket link ticket_id d =
    find
      (λ (t : Ticket).
        t.id == ticket_id && t.workspace_id == link.workspace_id && t.client_id == link.client_id)
      d.tickets

-- `_ticket`
unfoldable pub require_linked_ticket : ClientUserLink → ℕ → Action Ticket
require_linked_ticket link ticket_id = do
  ticket ← query (get_linked_ticket link ticket_id)
  or_raise ticket (not_found "Ticket not found")

unfoldable pub list_tickets : PortalQueries → ℕ → ℕ → Action (List Ticket)
unfolding require_link
list_tickets lib user_id link_id = do
  link ← require_link user_id link_id
  query (λ d. lib.newest_first (
      select (λ (t : Ticket). t.workspace_id == link.workspace_id && t.client_id == link.client_id)
        d.tickets))

unfoldable pub create_ticket : ℕ → ℕ → String → String → TicketPriority → Action Ticket
unfolding require_link insert_ticket record_event
create_ticket user_id link_id subject description priority = do
  link ← require_link user_id link_id
  ticket ← insert_ticket link.workspace_id user_id (record {
    client_id = link.client_id;
    subject = subject;
    description = description;
    priority = priority;
    queue_id = none;
    category_id = none;
  })
  record_success "portal.ticket.created" link.workspace_id user_id "ticket" ticket.id
      (("client_id", Meta.key link.client_id) ∷ [])
  commit
  pure ticket

unfoldable pub get_ticket : ℕ → ℕ → ℕ → Action Ticket
unfolding require_link require_linked_ticket
get_ticket user_id link_id ticket_id = do
  link ← require_link user_id link_id
  require_linked_ticket link ticket_id

-- The messages of the ticket's conversations, by `created_at`.
unfoldable pub messages_of : ℕ → ℕ → Db → List Message
messages_of workspace_id ticket_id d =
    sort_by (λ (m : Message). m.created_at)
      (select
        (λ (m : Message).
          m.workspace_id == workspace_id
          && any
              (λ (c : Conversation).
                c.id == m.conversation_id
                && c.workspace_id == workspace_id
                && c.ticket_id == ticket_id)
              d.conversations)
        d.messages)

unfoldable pub list_messages : ℕ → ℕ → ℕ → Action (List Message)
unfolding require_link require_linked_ticket
list_messages user_id link_id ticket_id = do
  link ← require_link user_id link_id
  require_linked_ticket link ticket_id
  query (messages_of link.workspace_id ticket_id)

-- The ticket's conversation on the web with the first `created_at`.
unfoldable pub web_conversation : ℕ → ℕ → Db → Option Conversation
web_conversation workspace_id ticket_id d =
    find
      (λ (c : Conversation).
        c.workspace_id == workspace_id
        && c.ticket_id == ticket_id
        && channel_eq c.channel ConversationChannel.web)
      (sort_by (λ (c : Conversation). c.created_at) d.conversations)

unfoldable pub conversation_or_new : ℕ → Ticket → ℕ → Option Conversation → Action Conversation
unfolding create_conversation
conversation_or_new workspace_id ticket user_id (some conversation) = pure conversation
conversation_or_new workspace_id ticket user_id none =
    create_conversation workspace_id ticket.id user_id ConversationChannel.web ticket.subject none

unfoldable pub add_message : ℕ → ℕ → ℕ → String → Action Message
unfolding require_link require_linked_ticket conversation_or_new create_message record_event
add_message user_id link_id ticket_id body = do
  link ← require_link user_id link_id
  ticket ← require_linked_ticket link ticket_id
  found ← query (web_conversation link.workspace_id ticket.id)
  conversation ← conversation_or_new link.workspace_id ticket user_id found
  message ←
      create_message link.workspace_id conversation.id (some user_id) MessageDirection.inbound body
        none
  record_success "portal.message.created" link.workspace_id user_id "message" message.id
      (("ticket_id", Meta.key ticket.id) ∷ [])
  commit
  pure message
