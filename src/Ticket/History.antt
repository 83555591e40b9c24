-- ===== src/Ticket/History.antt =====
-- The histories agree with the tickets: `assignee_user_id` is the last entry of the assignment
-- history, and the status is what the last audited transition says.
use support_endpoint.Prelude.{
  ℕ, ◌<◌, ◌≡◌, sym, ap, ◌∙◌, none, List, All, All-map, latest, sort_by-ascending,
  IsAscending-select, ◌&&◌, ◌==◌,
}
use support_endpoint.Models.{TicketStatus, Ticket, TicketAssignment, AuditEvent}
use support_endpoint.Session.{Db, Session}
use support_endpoint.Operations.Repo.{is_status_event, ticket_status_events, metadata_get}
use support_endpoint.Ticket.Keys.{HasKeys}
use support_endpoint.Ticket.Repo.{list_for_ticket}
use support_endpoint.Ticket.Server.{Request, serve}
use support_endpoint.Ticket.Records.{assignments_of, transitions_of, IsBelow, HasEntries, target_of}
use support_endpoint.Ticket.Entries.{serve-HasEntries}
use support_endpoint.Ticket.Instants.{AfterEach, InOrder, serve-InOrder}

-- The ticket is what its two histories say, by the code's queries.
abbrev pub IsRecorded : Db → Ticket → Type 0
IsRecorded d t =
    (t.assignee_user_id
      ≡ latest (λ (a : TicketAssignment). a.assignee_user_id) none
          (list_for_ticket t.workspace_id t.id d))
    × (t.status
        ≡ latest (λ (e : AuditEvent). target_of (metadata_get "to" e.metadata)) TicketStatus.new
            (ticket_status_events t.workspace_id t.id d))

-- The tickets are what their histories say, which speak of ids that have been given out.
pub record HasHistory (d : Db) (n : ℕ) : Type 0 where
  pub assignments : All (λ (a : TicketAssignment). a.ticket_id < n) d.assignments
  pub events : All (λ (e : AuditEvent). IsBelow n e.resource_id) d.audit_events
  pub recorded : All (IsRecorded d) d.tickets

-- In tables that were written in the order of their instants, the queries' order is that of writing.
module _ (t : ℕ) (d : Db) (order : InOrder t d) (w i : ℕ) where
  list_for_ticket_lem : list_for_ticket w i d ≡ assignments_of w i d
  unfolding list_for_ticket assignments_of
  list_for_ticket_lem =
      sort_by-ascending (λ (a : TicketAssignment). a.created_at) _
        (IsAscending-select (λ (a : TicketAssignment). a.created_at)
          (λ a. a.workspace_id == w && a.ticket_id == i) d.assignments order.assignments)

  ticket_status_events_lem : ticket_status_events w i d ≡ transitions_of w i d
  unfolding ticket_status_events transitions_of
  ticket_status_events_lem =
      sort_by-ascending (λ (e : AuditEvent). e.created_at) _
        (IsAscending-select (λ (e : AuditEvent). e.created_at) (is_status_event w i) d.audit_events
          order.events)

HasEntries-HasHistory : (t n : ℕ) (d : Db) → InOrder t d → HasEntries d n → HasHistory d n
HasEntries-HasHistory t n d order h = record {
  assignments = h.assignments;
  events = h.events;
  recorded =
      All-map d.tickets
        (λ x k. (
          k.0 ∙ sym (ap (latest _ none) (list_for_ticket_lem t d order x.workspace_id x.id)),
          k.1
              ∙ sym (
                  ap (latest _ TicketStatus.new)
                    (ticket_status_events_lem t d order x.workspace_id x.id)),
        ))
        h.recorded;
}

HasHistory-HasEntries : (t n : ℕ) (d : Db) → InOrder t d → HasHistory d n → HasEntries d n
HasHistory-HasEntries t n d order h = record {
  assignments = h.assignments;
  events = h.events;
  recorded =
      All-map d.tickets
        (λ x k. (
          k.0 ∙ ap (latest _ none) (list_for_ticket_lem t d order x.workspace_id x.id),
          k.1
              ∙ ap (latest _ TicketStatus.new)
                  (ticket_status_events_lem t d order x.workspace_id x.id),
        ))
        h.recorded;
}

-- If ticket ids are keys, it is so at first, and each assignment, each audit event and each request
-- comes later than the one before it, then after any run of requests about tickets every ticket's
-- current assignee is the last entry of its assignment history by `created_at` (none if there is
-- none), its status is the target of the last audited transition by `created_at` (`new` if there is
-- none), and both histories speak only of ids that have been given out.
pub serve-HasHistory :
    (rs : List Request) (t : ℕ) (s : Session)
    → HasKeys s.stored.tickets s.next_id
    → InOrder t s.stored
    → AfterEach t rs
    → HasHistory s.stored s.next_id
    → HasHistory (serve rs s).stored (serve rs s).next_id
serve-HasHistory rs t s keys order after h =
    let (now, later) = serve-InOrder rs t s after order in
    HasEntries-HasHistory now _ _ later
      (serve-HasEntries rs s keys (HasHistory-HasEntries t s.next_id s.stored order h))
