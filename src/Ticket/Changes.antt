-- ===== src/Ticket/Changes.antt =====
-- What a change of one ticket's status or assignee, with its new row of history, leaves of the
-- records of the tickets.
use support_endpoint.Prelude.{
  ℕ, ◌<◌, ◌≤◌, ◌≡◌, sym, ◌∙◌, true, false, Option, some, [], ◌∷◌, arith, All, All-map, push, find,
  String,
}
use support_endpoint.Models.{TicketStatus, Ticket, TicketAssignment, AuditEvent, Meta}
use support_endpoint.Session.{Session}
use support_endpoint.Operations.Repo.{is_status_event, metadata_get}
use support_endpoint.Ticket.Keys.{HasKeys}
use support_endpoint.Ticket.Rows.{is_row, is_row-found, has_id}
use support_endpoint.Ticket.Step
use support_endpoint.Ticket.Step.{Step, IsEvent}
use support_endpoint.Ticket.Records.{
  assignments_of, transitions_of, IsEntered, IsBelow, HasEntries, not_about, status_kept,
  status_moved, with_row, is_mine, assignee_kept, assignee_set, events_pushed, lt_trans_le,
  found_below, is_change,
}

module _ (w : ℕ) (s : Session) (keys : HasKeys s.stored.tickets s.next_id) where
  -- Events and assignments of a step about a stored ticket, and what it leaves of the records.
  module _ (t : Ticket) (found : find (is_row w t.id) s.stored.tickets ≡ some t) where
    pub moved-IsEntered :
        (g : TicketStatus) (e : AuditEvent) (x : Ticket)
        → IsEvent w t.id "servicedesk.ticket.status_changed" e
        → e.metadata ≡ ("from", Meta.status t.status) ∷ ("to", Meta.status g) ∷ []
        → (x.id ≡ t.id → x ≡ t)
        → has_id t.id x ≡ true
        → IsEntered s.stored x
        → IsEntered (Step.with_event e s.stored) (record x { status = g })
    unfolding assignments_of metadata_get
    moved-IsEntered g e x ev m only picked h =
        let xt : x ≡ t = only (ground arith) in
        let same : is_status_event x.workspace_id x.id e ≡ true =
          rw (xt, (is_row-found w t.id t s.stored.tickets found).1) (is_change w t.id e ev) in
        (h.0, sym (status_moved x.workspace_id x.id e s.stored same ∙ rw m))

    pub moved_other :
        (e : AuditEvent) (x : Ticket)
        → IsEvent w t.id "servicedesk.ticket.status_changed" e
        → has_id t.id x ≡ false
        → IsEntered s.stored x
        → IsEntered (Step.with_event e s.stored) x
    unfolding assignments_of
    moved_other e x ev other h = (
      h.0,
      h.1
          ∙ sym (
              status_kept x.workspace_id x.id e s.stored
                (not_about x.workspace_id w x.id t.id e ev (λ q. ground arith))),
    )

    pub assigned-IsEntered :
        (u : Option ℕ) (row : TicketAssignment) (x : Ticket)
        → row.workspace_id ≡ w
        → row.ticket_id ≡ t.id
        → row.assignee_user_id ≡ u
        → (x.id ≡ t.id → x ≡ t)
        → has_id t.id x ≡ true
        → IsEntered s.stored x
        → IsEntered (with_row w t.id row s.stored) (record x { assignee_user_id = u })
    unfolding transitions_of is_mine
    assigned-IsEntered u row x rw_w rw_t rw_u only picked h =
        let xt : x ≡ t = only (ground arith) in
        let same : is_mine x.workspace_id x.id row s.stored ≡ true =
          rw (xt, (is_row-found w t.id t s.stored.tickets found).1, rw_w, rw_t) (ground arith) in
        (sym (assignee_set x.workspace_id x.id row s.stored same ∙ rw_u), h.1)

    pub assigned_other :
        (row : TicketAssignment) (x : Ticket)
        → row.ticket_id ≡ t.id
        → has_id t.id x ≡ false
        → IsEntered s.stored x
        → IsEntered (with_row w t.id row s.stored) x
    unfolding transitions_of is_mine
    assigned_other row x rw_t other h =
        (h.0 ∙ sym (assignee_kept x.workspace_id x.id row s.stored (ground arith)), h.1)

  -- A step that changes no ticket and no assignment, or only edits attributes that no history
  -- records.
  pub events_only :
      (t : Ticket) {action : String} (e : AuditEvent) (m : ℕ)
      → IsEvent w t.id action e
      → find (is_row w t.id) s.stored.tickets ≡ some t
      → s.next_id ≤ m
      → HasEntries s.stored s.next_id
      → All (λ (x : AuditEvent). IsBelow m x.resource_id) (push e s.stored.audit_events)
  events_only t e m ev found le k =
      events_pushed w t.id s.next_id m e s.stored.audit_events ev
        (lt_trans_le (found_below w t.id s.next_id t s.stored keys found) le) le k.events

  pub assignments_later :
      (m : ℕ)
      → s.next_id ≤ m
      → HasEntries s.stored s.next_id
      → All (λ (a : TicketAssignment). a.ticket_id < m) s.stored.assignments
  assignments_later m le k = All-map s.stored.assignments (λ a b. omega arith) k.assignments
