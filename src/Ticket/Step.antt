-- ===== src/Ticket/Step.antt =====
-- What a request about tickets may do to the database: an abstract step of the service desk in
-- one workspace. services/ticket_service.py is proved to take no other.
use support_endpoint.Prelude.{
  ℕ, ◌+◌, ◌≡◌, true, Option, none, some, [], ◌∷◌, push, modify_where, remove_where, ◌==◌, is_some,
  String,
}
use support_endpoint.Models.{TicketStatus, Ticket, TicketAssignment, TicketTag, AuditEvent, Meta}
use support_endpoint.Session.{Db, Session}
use support_endpoint.Authz.{get_membership}
use support_endpoint.Ticket.Status.{is_transition_allowed}
use support_endpoint.Ticket.Repo.{
  get_in_workspace, get_client, get_queue, get_category, get_tag, get_ticket_tag,
}
use support_endpoint.Ticket.Service.{TicketUpdateRequest, revise}

-- A reference that may be absent, and otherwise resolves in the workspace.
abbrev pub QueueHolds : ℕ → Option ℕ → Db → Type 0
QueueHolds w none d = Unit
QueueHolds w (some i) d = is_some (get_queue w i d) ≡ true

abbrev pub CategoryHolds : ℕ → Option ℕ → Db → Type 0
CategoryHolds w none d = Unit
CategoryHolds w (some i) d = is_some (get_category w i d) ≡ true

abbrev pub MemberHolds : ℕ → Option ℕ → Db → Type 0
MemberHolds w none d = Unit
MemberHolds w (some u) d = is_some (get_membership w u d) ≡ true

-- The event that a step writes: one, of this workspace, about this ticket.
pub record IsEvent (w ticket_id : ℕ) (action : String) (e : AuditEvent) : Type 0 where
  pub in_workspace : e.workspace_id ≡ some w
  pub kind : e.resource_type ≡ "ticket"
  pub about : e.resource_id ≡ Meta.key ticket_id
  pub named : e.action ≡ action

abbrev pub with_event : AuditEvent → Db → Db
with_event e d = record d { audit_events = push e d.audit_events }

abbrev pub change_ticket : ℕ → (Ticket → Ticket) → Db → Db
change_ticket i f d = record d { tickets = modify_where (λ (t : Ticket). t.id == i) f d.tickets }

pub data Step (w : ℕ) (s s' : Session) : Type 0 where
  created :
      (t : Ticket) (e : AuditEvent)
      → t.id ≡ s.next_id
      → t.workspace_id ≡ w
      → t.status ≡ TicketStatus.new
      → t.assignee_user_id ≡ none
      → is_some (get_client w t.client_id s.stored) ≡ true
      → QueueHolds w t.queue_id s.stored
      → CategoryHolds w t.category_id s.stored
      → IsEvent w t.id "servicedesk.ticket.created" e × (e.created_at ≡ s.now)
      → s'.stored ≡ with_event e (record s.stored { tickets = push t s.stored.tickets })
      → s'.next_id ≡ s.next_id + 2
      → Step w s s'
  updated :
      (t : Ticket) (p : TicketUpdateRequest) (e : AuditEvent)
      → get_in_workspace w t.id s.stored ≡ some t
      → QueueHolds w p.queue_id s.stored
      → CategoryHolds w p.category_id s.stored
      → IsEvent w t.id "servicedesk.ticket.updated" e × (e.created_at ≡ s.now)
      → s'.stored ≡ with_event e (change_ticket t.id (revise p) s.stored)
      → s'.next_id ≡ s.next_id + 1
      → Step w s s'
  moved :
      (t : Ticket) (target : TicketStatus) (e : AuditEvent)
      → get_in_workspace w t.id s.stored ≡ some t
      → is_transition_allowed t.status target ≡ true
      → IsEvent w t.id "servicedesk.ticket.status_changed" e × (e.created_at ≡ s.now)
      → e.metadata ≡ ("from", Meta.status t.status) ∷ ("to", Meta.status target) ∷ []
      → s'.stored ≡ with_event e (change_ticket t.id (λ x. record x { status = target }) s.stored)
      → s'.next_id ≡ s.next_id + 1
      → Step w s s'
  assigned :
      (t : Ticket) (user : Option ℕ) (row : TicketAssignment) (e : AuditEvent)
      → get_in_workspace w t.id s.stored ≡ some t
      → MemberHolds w user s.stored
      → row.workspace_id ≡ w
      → row.ticket_id ≡ t.id
      → (row.assignee_user_id ≡ user) × (row.created_at ≡ s.now)
      → IsEvent w t.id "servicedesk.ticket.assigned" e × (e.created_at ≡ s.now)
      → s'.stored
        ≡ with_event e
            (record (change_ticket t.id (λ x. record x { assignee_user_id = user }) s.stored) {
              assignments = push row s.stored.assignments;
            })
      → s'.next_id ≡ s.next_id + 2
      → Step w s s'
  tagged :
      (t : Ticket) (link : TicketTag) (e : AuditEvent)
      → get_in_workspace w t.id s.stored ≡ some t
      → link.ticket_id ≡ t.id
      → is_some (get_tag w link.tag_id s.stored) ≡ true
      → get_ticket_tag t.id link.tag_id s.stored ≡ none
      → IsEvent w t.id "servicedesk.ticket.tag_added" e × (e.created_at ≡ s.now)
      → s'.stored ≡ with_event e (record s.stored { ticket_tags = push link s.stored.ticket_tags })
      → s'.next_id ≡ s.next_id + 2
      → Step w s s'
  tag_kept :
      (t : Ticket) (tag_id : ℕ) (e : AuditEvent)
      → get_in_workspace w t.id s.stored ≡ some t
      → is_some (get_ticket_tag t.id tag_id s.stored) ≡ true
      → IsEvent w t.id "servicedesk.ticket.tag_added" e × (e.created_at ≡ s.now)
      → s'.stored ≡ with_event e s.stored
      → s'.next_id ≡ s.next_id + 1
      → Step w s s'
  untagged :
      (t : Ticket) (tag_id : ℕ) (link : TicketTag) (e : AuditEvent)
      → get_in_workspace w t.id s.stored ≡ some t
      → get_ticket_tag t.id tag_id s.stored ≡ some link
      → IsEvent w t.id "servicedesk.ticket.tag_removed" e × (e.created_at ≡ s.now)
      → s'.stored
        ≡ with_event e (record s.stored {
          ticket_tags = remove_where (λ (l : TicketTag). l.id == link.id) s.stored.ticket_tags;
        })
      → s'.next_id ≡ s.next_id + 1
      → Step w s s'
  no_tag :
      (t : Ticket) (tag_id : ℕ) (e : AuditEvent)
      → get_in_workspace w t.id s.stored ≡ some t
      → get_ticket_tag t.id tag_id s.stored ≡ none
      → IsEvent w t.id "servicedesk.ticket.tag_removed" e × (e.created_at ≡ s.now)
      → s'.stored ≡ with_event e s.stored
      → s'.next_id ≡ s.next_id + 1
      → Step w s s'
