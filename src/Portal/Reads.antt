-- ===== src/Portal/Reads.antt =====
-- What an account may see through the portal.
use support_endpoint.Prelude.{
  ℕ, ◌≡◌, refl, sym, ◌∙◌, ap, Bool, ◌&&◌, some, find, select, any, List, sort_by, find-select,
  Option-cases, inl, inr, ◌==◌, arith,
}
use support_endpoint.Models.{ClientUserLink, Conversation, Message, Ticket}
use support_endpoint.Session.{Db, Session, request}
use support_endpoint.Portal.Service
use support_endpoint.Portal.Service.{PortalQueries, get_link, get_linked_ticket, messages_of}
use support_endpoint.Portal.Router.{portal_tickets, portal_ticket, portal_messages}

abbrev is_own : ℕ → ClientUserLink → Bool
is_own user l = l.user_id == user

abbrev is_of_client : ClientUserLink → Ticket → Bool
is_of_client link t = t.workspace_id == link.workspace_id && t.client_id == link.client_id

-- A message of the link's workspace in a conversation of that workspace about the ticket.
abbrev pub is_message_of : ClientUserLink → ℕ → List Conversation → Message → Bool
is_message_of link ticket conversations m =
    m.workspace_id == link.workspace_id
    && any
        (λ (c : Conversation).
          c.id == m.conversation_id && c.workspace_id == link.workspace_id && c.ticket_id == ticket)
        conversations

-- Two databases that agree on the account's links, on the tickets of the linked clients, and on the
-- messages in the conversations of those tickets.
pub record SameView (user : ℕ) (d d' : Db) : Type 0 where
  pub links : select (is_own user) d.client_user_links ≡ select (is_own user) d'.client_user_links
  pub tickets :
      (i : ℕ) (l : ClientUserLink)
      → get_link user i d ≡ some l
      → select (is_of_client l) d.tickets ≡ select (is_of_client l) d'.tickets
  pub messages :
      (i ticket : ℕ) (l : ClientUserLink) (t : Ticket)
      → get_link user i d ≡ some l
      → get_linked_ticket l ticket d ≡ some t
      → select (is_message_of l ticket d.conversations) d.messages
        ≡ select (is_message_of l ticket d'.conversations) d'.messages

module _ (user : ℕ) (d d' : Db) (same : SameView user d d') where
  get_link-same : (i : ℕ) → get_link user i d ≡ get_link user i d'
  unfolding get_link
  get_link-same i =
      let test : ClientUserLink → Bool = λ l. l.id == i && l.user_id == user in
      sym (find-select test (is_own user) d.client_user_links (λ l h. ground arith))
      ∙ ap (find test) same.links
      ∙ find-select test (is_own user) d'.client_user_links (λ l h. ground arith)

  get_linked_ticket-same :
      (i ticket : ℕ) (l : ClientUserLink)
      → get_link user i d ≡ some l
      → get_linked_ticket l ticket d ≡ get_linked_ticket l ticket d'
  unfolding get_linked_ticket
  get_linked_ticket-same i ticket l own =
      let test : Ticket → Bool =
        λ t. t.id == ticket && t.workspace_id == l.workspace_id && t.client_id == l.client_id in
      sym (find-select test (is_of_client l) d.tickets (λ t h. ground arith))
      ∙ ap (find test) (same.tickets i l own)
      ∙ find-select test (is_of_client l) d'.tickets (λ t h. ground arith)

messages_of-same :
    (l : ClientUserLink) (ticket : ℕ) (d d' : Db)
    → select (is_message_of l ticket d.conversations) d.messages
      ≡ select (is_message_of l ticket d'.conversations) d'.messages
    → messages_of l.workspace_id ticket d ≡ messages_of l.workspace_id ticket d'
unfolding messages_of
messages_of-same l ticket d d' h = ap (sort_by (λ (m : Message). m.created_at)) h

-- The portal tells an account nothing but its own: whatever else two databases hold, if they agree
-- on the account's links, on the tickets of the linked clients and on the messages in the
-- conversations of those tickets, then the listing of tickets, a ticket and its messages are the
-- same, refusals included.
pub portal_reads-same :
    (lib : PortalQueries) (user link_id ticket_id : ℕ) (s s' : Session)
    → SameView user s.stored s'.stored
    → ((request (portal_tickets lib user link_id) s).0
        ≡ (request (portal_tickets lib user link_id) s').0)
      × ((request (portal_ticket user link_id ticket_id) s).0
          ≡ (request (portal_ticket user link_id ticket_id) s').0)
      × ((request (portal_messages user link_id ticket_id) s).0
          ≡ (request (portal_messages user link_id ticket_id) s').0)
unfolding request portal_tickets portal_ticket portal_messages Service.list_tickets
    Service.get_ticket Service.list_messages
portal_reads-same lib user link_id ticket_id s s' same =
    let d = s.stored in
    let d' = s'.stored in
    let links = get_link-same user d d' same link_id in
    elim (Option-cases (get_link user link_id d)) [
      | inl e ↦ rw (sym links, e) (refl, refl, refl)
      | inr (l, e) ↦
          let ticket = get_linked_ticket-same user d d' same link_id ticket_id l e in
          let listed = same.tickets link_id l e in
          elim (Option-cases (get_linked_ticket l ticket_id d)) [
            | inl f ↦ rw (sym links, e, sym ticket, f, listed) (refl, refl, refl)
            | inr (t, f) ↦
                let told =
                  messages_of-same l ticket_id d d' (same.messages link_id ticket_id l t e f) in
                rw (sym links, e, sym ticket, f, listed, told) (refl, refl, refl)
          ]
    ]
