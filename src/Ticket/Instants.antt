-- ===== src/Ticket/Instants.antt =====
-- Rows of the two histories are written at the instants of the requests.
use support_endpoint.Prelude.{
  ℕ, ◌<◌, ◌≤◌, ◌≡◌, refl, sym, subst, push, List, [], ◌∷◌, All, All-map, All-push, IsAscending,
  IsAscending-push, arith,
}
use support_endpoint.Models.{Ticket, TicketAssignment, AuditEvent}
use support_endpoint.Session.{Db, Session, Result, ok, err}
use support_endpoint.Ticket.Calls.{handle}
use support_endpoint.Ticket.Refines.{Ends}
use support_endpoint.Ticket.Routes.{handle-Ends}
use support_endpoint.Ticket.Server.{Request, serve}
use support_endpoint.Ticket.Step
use support_endpoint.Ticket.Step.{Step}

-- Each request comes after the one before it, the first after t.
abbrev pub AfterEach : ℕ → List Request → Type 0
AfterEach t [] = Unit
AfterEach t (r ∷ rs) = (t < r.at) × AfterEach r.at rs

-- Each row of the two tables was written later than those before it, and none later than t.
pub record InOrder (t : ℕ) (d : Db) : Type 0 where
  pub assignments : IsAscending (λ (a : TicketAssignment). a.created_at) d.assignments
  pub events : IsAscending (λ (e : AuditEvent). e.created_at) d.audit_events
  pub old_assignments : All (λ (a : TicketAssignment). a.created_at ≤ t) d.assignments
  pub old_events : All (λ (e : AuditEvent). e.created_at ≤ t) d.audit_events

InOrder-later : (t now : ℕ) (d : Db) → t < now → InOrder t d → InOrder now d
InOrder-later t now d later h = record {
  assignments = h.assignments;
  events = h.events;
  old_assignments = All-map d.assignments (λ a k. omega (arith, k)) h.old_assignments;
  old_events = All-map d.audit_events (λ e k. omega (arith, k)) h.old_events;
}

module _ (t now : ℕ) (later : t < now) where
  InOrder-event :
      (e : AuditEvent) (d : Db)
      → e.created_at ≡ now
      → InOrder t d
      → InOrder now (Step.with_event e d)
  InOrder-event e d at h =
      let k = InOrder-later t now d later h in
      record {
        assignments = k.assignments;
        events =
            IsAscending-push (λ (x : AuditEvent). x.created_at) e d.audit_events
              (All-map d.audit_events (λ x b. omega (arith, at, b)) h.old_events) h.events;
        old_assignments = k.old_assignments;
        old_events =
            All-push (λ (x : AuditEvent). x.created_at ≤ now) e d.audit_events k.old_events
              (omega (arith, at));
      }

  InOrder-assignment :
      (a : TicketAssignment) (e : AuditEvent) (d : Db)
      → a.created_at ≡ now
      → e.created_at ≡ now
      → InOrder t d
      → InOrder now (Step.with_event e (record d { assignments = push a d.assignments }))
  InOrder-assignment a e d ra at h =
      let k = InOrder-event e d at h in
      record {
        assignments =
            IsAscending-push (λ (x : TicketAssignment). x.created_at) a d.assignments
              (All-map d.assignments (λ x b. omega (arith, ra, b)) h.old_assignments) h.assignments;
        events = k.events;
        old_assignments =
            All-push (λ (x : TicketAssignment). x.created_at ≤ now) a d.assignments
              k.old_assignments (omega (arith, ra));
        old_events = k.old_events;
      }

module _ (t w : ℕ) (s s' : Session) (later : t < s.now) where
  -- Neither table, or only the events, differ.
  event_only :
      (e : AuditEvent) (d : Db)
      → e.created_at ≡ s.now
      → d.assignments ≡ s.stored.assignments
      → d.audit_events ≡ s.stored.audit_events
      → s'.stored ≡ Step.with_event e d
      → InOrder t s.stored
      → InOrder s.now s'.stored
  event_only e d at rows events eq h = subst (InOrder s.now) (sym eq) (
      InOrder-event t s.now later e d at (record {
        assignments = rw rows h.assignments;
        events = rw events h.events;
        old_assignments = rw rows h.old_assignments;
        old_events = rw events h.old_events;
      }))

  Step-InOrder : Step w s s' → InOrder t s.stored → InOrder s.now s'.stored
  Step-InOrder (Step.created n e _ _ _ _ _ _ _ (_, at) eq _) h = event_only e _ at refl refl eq h
  Step-InOrder (Step.updated u p e _ _ _ (_, at) eq _) h = event_only e _ at refl refl eq h
  Step-InOrder (Step.moved u g e _ _ (_, at) _ eq _) h = event_only e _ at refl refl eq h
  Step-InOrder (Step.assigned u a r e _ _ _ _ (_, ra) (_, at) eq _) h =
      subst (InOrder s.now) (sym eq) (
        InOrder-assignment t s.now later r e
          (Step.change_ticket u.id (λ x. record x { assignee_user_id = a }) s.stored) ra at
          (record {
            assignments = h.assignments;
            events = h.events;
            old_assignments = h.old_assignments;
            old_events = h.old_events;
          }))
  Step-InOrder (Step.tagged u l e _ _ _ _ (_, at) eq _) h = event_only e _ at refl refl eq h
  Step-InOrder (Step.tag_kept u g e _ _ (_, at) eq _) h = event_only e _ at refl refl eq h
  Step-InOrder (Step.untagged u g l e _ _ (_, at) eq _) h = event_only e _ at refl refl eq h
  Step-InOrder (Step.no_tag u g e _ _ (_, at) eq _) h = event_only e _ at refl refl eq h

Ends-InOrder :
    (t w : ℕ) (s : Session) (out : Result Ticket × Session)
    → t < s.now
    → Ends w s out
    → InOrder t s.stored
    → InOrder s.now out.1.stored
Ends-InOrder t w s (ok u, s') later e h = Step-InOrder t w s s' later e.0 h
Ends-InOrder t w s (err x, s') later e h =
    subst (InOrder s.now) (sym e.0) (InOrder-later t s.now s.stored later h)

pub serve-InOrder :
    (rs : List Request) (t : ℕ) (s : Session)
    → AfterEach t rs
    → InOrder t s.stored
    → (now : ℕ) × InOrder now (serve rs s).stored
unfolding serve
serve-InOrder [] t s after h = (t, h)
serve-InOrder (r ∷ rs) t s after h =
    let s' = record s { now = r.at } in
    let out = handle r.workspace_id r.user_id r.call s' in
    serve-InOrder rs r.at out.1 after.1 (
      Ends-InOrder t r.workspace_id s' out after.0 (handle-Ends r.workspace_id r.user_id s' r.call)
        h)
