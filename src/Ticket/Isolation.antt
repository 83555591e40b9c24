-- ===== src/Ticket/Isolation.antt =====
-- Requests under one workspace's path do not touch the rows of another workspace.
use support_endpoint.Prelude.{
  ℕ, ◌≡◌, ◌≢◌, refl, sym, subst, Bool, false, some, List, arith, All, All-map, push, select, String,
  select-append, select_none, select-modify_where-All, find, ◌==◌, holds, modify_where, ◌∙◌,
  append-nil,
}
use support_endpoint.Models.{Ticket, TicketAssignment, AuditEvent}
use support_endpoint.Session.{Db, Session}
use support_endpoint.Ticket.Keys.{HasKeys, only_row, Step-HasKeys}
use support_endpoint.Ticket.Repo.{get_in_workspace}
use support_endpoint.Ticket.Rows.{
  is_row, is_row-found, has_id, KeepsKey, revise-KeepsKey, status-KeepsKey, assignee-KeepsKey,
}
use support_endpoint.Ticket.Server.{Request, serve, serve_keeps}
use support_endpoint.Ticket.Step.{Step, IsEvent}

-- The rows of a workspace, table by table.
abbrev pub tickets_of : ℕ → Db → List Ticket
tickets_of v d = select (λ (t : Ticket). t.workspace_id == v) d.tickets

abbrev pub assignments_of : ℕ → Db → List TicketAssignment
assignments_of v d = select (λ (a : TicketAssignment). a.workspace_id == v) d.assignments

abbrev pub events_of : ℕ → Db → List AuditEvent
events_of v d = select (λ (e : AuditEvent). holds e.workspace_id v) d.audit_events

pub record SameRows (v : ℕ) (d d' : Db) : Type 0 where
  pub tickets : tickets_of v d' ≡ tickets_of v d
  pub assignments : assignments_of v d' ≡ assignments_of v d
  pub events : events_of v d' ≡ events_of v d

SameRows-trans : {v : ℕ} {a b c : Db} → SameRows v b c → SameRows v a b → SameRows v a c
SameRows-trans h k = record {
  tickets = h.tickets ∙ k.tickets;
  assignments = h.assignments ∙ k.assignments;
  events = h.events ∙ k.events;
}

module _ (v w : ℕ) (ne : w ≢ v) where
  select-push_other {ℓ} :
      {A : Type ℓ} (p : A → Bool) (x : A) (xs : List A)
      → p x ≡ false
      → select p (push x xs) ≡ select p xs
  select-push_other p x xs h = rw (select-append, select_none p x h) (append-nil _)

  tickets-changed :
      (t : Ticket) (f : Ticket → Ticket) (ts : List Ticket) {n : ℕ}
      → HasKeys ts n
      → KeepsKey f
      → find (is_row w t.id) ts ≡ some t
      → select (λ (x : Ticket). x.workspace_id == v) (modify_where (has_id t.id) f ts)
        ≡ select (λ (x : Ticket). x.workspace_id == v) ts
  tickets-changed t f ts k kf h =
      select-modify_where-All (λ (x : Ticket). x.workspace_id == v) (has_id t.id) f ts
        (All-map ts (λ x only q. ground (arith, only, is_row-found w t.id t ts h))
          (only_row w t.id t ts k.unique h))
        (λ x. ground (arith, kf.workspace_id x))

  events-pushed :
      (i : ℕ) {action : String} (e : AuditEvent) (es : List AuditEvent)
      → IsEvent w i action e
      → select (λ (e : AuditEvent). holds e.workspace_id v) (push e es)
        ≡ select (λ (e : AuditEvent). holds e.workspace_id v) es
  events-pushed i e es h = select-push_other _ e es (rw h.in_workspace (ground arith))

  pub Step-SameRows :
      (s s' : Session)
      → Step w s s'
      → HasKeys s.stored.tickets s.next_id
      → SameRows v s.stored s'.stored
  unfolding get_in_workspace
  Step-SameRows s s' (Step.created t e _ h _ _ _ _ _ (ev, at) eq _) k =
      subst (SameRows v s.stored) (sym eq) (record {
        tickets = select-push_other _ t s.stored.tickets (rw h (ground arith));
        assignments = refl;
        events = events-pushed t.id e s.stored.audit_events ev;
      })
  Step-SameRows s s' (Step.updated t p e h _ _ (ev, at) eq _) k =
      subst (SameRows v s.stored) (sym eq) (record {
        tickets = tickets-changed t _ s.stored.tickets k (revise-KeepsKey p) h;
        assignments = refl;
        events = events-pushed t.id e s.stored.audit_events ev;
      })
  Step-SameRows s s' (Step.moved t g e h _ (ev, at) _ eq _) k =
      subst (SameRows v s.stored) (sym eq) (record {
        tickets = tickets-changed t _ s.stored.tickets k (status-KeepsKey g) h;
        assignments = refl;
        events = events-pushed t.id e s.stored.audit_events ev;
      })
  Step-SameRows s s' (Step.assigned t u r e h _ rw_w _ _ (ev, at) eq _) k =
      subst (SameRows v s.stored) (sym eq) (record {
        tickets = tickets-changed t _ s.stored.tickets k (assignee-KeepsKey u) h;
        assignments = select-push_other _ r s.stored.assignments (rw rw_w (ground arith));
        events = events-pushed t.id e s.stored.audit_events ev;
      })
  Step-SameRows s s' (Step.tagged t l e _ _ _ _ (ev, at) eq _) k =
      subst (SameRows v s.stored) (sym eq) (record {
        tickets = refl;
        assignments = refl;
        events = events-pushed t.id e s.stored.audit_events ev;
      })
  Step-SameRows s s' (Step.tag_kept t g e _ _ (ev, at) eq _) k =
      subst (SameRows v s.stored) (sym eq) (record {
        tickets = refl;
        assignments = refl;
        events = events-pushed t.id e s.stored.audit_events ev;
      })
  Step-SameRows s s' (Step.untagged t g l e _ _ (ev, at) eq _) k =
      subst (SameRows v s.stored) (sym eq) (record {
        tickets = refl;
        assignments = refl;
        events = events-pushed t.id e s.stored.audit_events ev;
      })
  Step-SameRows s s' (Step.no_tag t g e _ _ (ev, at) eq _) k =
      subst (SameRows v s.stored) (sym eq) (record {
        tickets = refl;
        assignments = refl;
        events = events-pushed t.id e s.stored.audit_events ev;
      })

-- If ticket ids are keys below the supply of new ids, then whatever requests about tickets arrive
-- under other workspaces' paths, whoever sends them, the tickets, the assignment history and the audit events of the workspace `v` stay as they are.
pub serve-SameRows :
    (v : ℕ) (rs : List Request) (s : Session)
    → All (λ (r : Request). r.workspace_id ≢ v) rs
    → HasKeys s.stored.tickets s.next_id
    → SameRows v s.stored (serve rs s).stored
serve-SameRows v rs s others keys =
    (serve_keeps (λ w. w ≢ v) (λ d n. HasKeys d.tickets n × SameRows v s.stored d)
      (λ a x y ne step h.
        (Step-HasKeys a x y step h.0, SameRows-trans (Step-SameRows v a ne x y step h.0) h.1))
      rs s others (keys, record { tickets = refl; assignments = refl; events = refl })).1
