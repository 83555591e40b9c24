-- ===== src/Ticket/Entries.antt =====
-- The tables agree with the tickets: `assignee_user_id` is what the last row of the assignments says
-- that was written about the ticket, and the status is what its last audited transition says.
use support_endpoint.Prelude.{
  ℕ, ◌≤◌, ◌≡◌, refl, sym, subst₂, false, some, List, arith, All-push, All-modify_where, All-map,
  All-zip, find, str_eq, String,
}
use support_endpoint.Models.{Ticket, TicketTag, AuditEvent}
use support_endpoint.Session.{Session}
use support_endpoint.Ticket.Keys.{HasKeys, only_row, Step-HasKeys}
use support_endpoint.Ticket.Repo.{get_in_workspace}
use support_endpoint.Ticket.Rows.{is_row, has_id}
use support_endpoint.Ticket.Server.{Request, serve, serve_keeps, Anywhere, All-Anywhere}
use support_endpoint.Ticket.Service.{revise}
use support_endpoint.Ticket.Step
use support_endpoint.Ticket.Step.{Step, IsEvent}
use support_endpoint.Ticket.Records.{
  assignments_of, transitions_of, IsEntered, HasEntries, with_row, IsEntered-kept, events_pushed,
  lt_trans_le, found_below, IsEntered-new,
}
use support_endpoint.Ticket.Changes.{
  moved-IsEntered, moved_other, assigned-IsEntered, assigned_other, events_only, assignments_later,
}

module _ (w : ℕ) (s : Session) (keys : HasKeys s.stored.tickets s.next_id) where
  -- A step that writes an event, which is no transition, and nothing else that is recorded.
  event_only :
      (links : List TicketTag) (t : Ticket) {action : String} (e : AuditEvent) (m : ℕ)
      → IsEvent w t.id action e
      → str_eq action "servicedesk.ticket.status_changed" ≡ false
      → find (is_row w t.id) s.stored.tickets ≡ some t
      → s.next_id ≤ m
      → HasEntries s.stored s.next_id
      → HasEntries (Step.with_event e (record s.stored { ticket_tags = links })) m
  unfolding assignments_of transitions_of
  event_only links t e m ev other found le k = record {
    assignments = assignments_later w s keys m le k;
    events = events_only w s keys t e m ev found le k;
    recorded =
        All-map s.stored.tickets
          (IsEntered-kept w t.id e (record s.stored { ticket_tags = links }) ev other) k.recorded;
  }

  Step-HasEntries :
      (s' : Session) → Step w s s' → HasEntries s.stored s.next_id → HasEntries s'.stored s'.next_id
  unfolding get_in_workspace assignments_of transitions_of
  Step-HasEntries s' (Step.created t e i hw st ha _ _ _ (ev, at) eq n) k =
      subst₂ HasEntries (sym eq) (sym n) (record {
        assignments = assignments_later w s keys _ (omega arith) k;
        events =
            events_pushed w t.id s.next_id _ e s.stored.audit_events ev (omega arith) (omega arith)
              k.events;
        recorded =
            All-push (IsEntered (Step.with_event e s.stored)) t s.stored.tickets
              (All-map s.stored.tickets (IsEntered-kept w t.id e s.stored ev refl) k.recorded)
              (IsEntered-new w s.next_id e s.stored t k i st ha ev refl);
      })
  Step-HasEntries s' (Step.updated t p e found _ _ (ev, at) eq n) k =
      subst₂ HasEntries (sym eq) (sym n) (record {
        assignments = assignments_later w s keys _ (omega arith) k;
        events = events_only w s keys t e _ ev found (omega arith) k;
        recorded =
            All-modify_where {Q = IsEntered (Step.with_event e s.stored)} (has_id t.id) (revise p)
              s.stored.tickets (λ x _ h. IsEntered-kept w t.id e s.stored ev refl x h)
              (λ x _ h. IsEntered-kept w t.id e s.stored ev refl x h) k.recorded;
      })
  Step-HasEntries s' (Step.moved t g e found _ (ev, at) m eq n) k =
      subst₂ HasEntries (sym eq) (sym n) (record {
        assignments = assignments_later w s keys _ (omega arith) k;
        events = events_only w s keys t e _ ev found (omega arith) k;
        recorded =
            All-modify_where {Q = IsEntered (Step.with_event e s.stored)} (has_id t.id)
              (λ x. record x { status = g }) s.stored.tickets
              (λ x picked h. moved-IsEntered w s keys t found g e x ev m h.0 picked h.1)
              (λ x other h. moved_other w s keys t found e x ev other h.1)
              (All-zip (λ (x : Ticket). x.id ≡ t.id → x ≡ t) (IsEntered s.stored) s.stored.tickets
                (only_row w t.id t s.stored.tickets keys.unique found) k.recorded);
      })
  Step-HasEntries s' (Step.assigned t u r e found _ rww rwt (rwu, ra) (ev, at) eq n) k =
      subst₂ HasEntries (sym eq) (sym n) (record {
        assignments =
            All-push _ r s.stored.assignments (assignments_later w s keys _ (omega arith) k) (
              rw rwt
                (lt_trans_le (found_below w t.id s.next_id t s.stored keys found) (omega arith)));
        events = events_only w s keys t e _ ev found (omega arith) k;
        recorded =
            All-modify_where {Q = IsEntered (Step.with_event e (with_row w t.id r s.stored))}
              (has_id t.id) (λ x. record x { assignee_user_id = u }) s.stored.tickets
              (λ x picked h.
                IsEntered-kept w t.id e (with_row w t.id r s.stored) ev refl
                  (record x { assignee_user_id = u })
                  (assigned-IsEntered w s keys t found u r x rww rwt rwu h.0 picked h.1))
              (λ x other h.
                IsEntered-kept w t.id e (with_row w t.id r s.stored) ev refl x
                  (assigned_other w s keys t found r x rwt other h.1))
              (All-zip (λ (x : Ticket). x.id ≡ t.id → x ≡ t) (IsEntered s.stored) s.stored.tickets
                (only_row w t.id t s.stored.tickets keys.unique found) k.recorded);
      })
  Step-HasEntries s' (Step.tagged t l e found _ _ _ (ev, at) eq n) k =
      subst₂ HasEntries (sym eq) (sym n) (event_only _ t e _ ev refl found (omega arith) k)
  Step-HasEntries s' (Step.tag_kept t g e found _ (ev, at) eq n) k =
      subst₂ HasEntries (sym eq) (sym n) (event_only _ t e _ ev refl found (omega arith) k)
  Step-HasEntries s' (Step.untagged t g l e found _ (ev, at) eq n) k =
      subst₂ HasEntries (sym eq) (sym n) (event_only _ t e _ ev refl found (omega arith) k)
  Step-HasEntries s' (Step.no_tag t g e found _ (ev, at) eq n) k =
      subst₂ HasEntries (sym eq) (sym n) (event_only _ t e _ ev refl found (omega arith) k)

pub serve-HasEntries :
    (rs : List Request) (s : Session)
    → HasKeys s.stored.tickets s.next_id
    → HasEntries s.stored s.next_id
    → HasEntries (serve rs s).stored (serve rs s).next_id
serve-HasEntries rs s keys h =
    (serve_keeps Anywhere (λ d n. HasKeys d.tickets n × HasEntries d n)
      (λ w a b _ step k. (Step-HasKeys w a b step k.0, Step-HasEntries w a k.0 b step k.1)) rs s
      (All-Anywhere rs) (keys, h)).1
