-- ===== src/Ticket/Integrity.antt =====
-- Object-level integrity: whatever a ticket refers to lies in the ticket's own workspace, and its
-- assignee is a member there.
use support_endpoint.Prelude.{
  ℕ, ◌≡◌, sym, subst, true, Option, none, some, List, is_some, All, All-push, All-modify_where,
  All-map, All-zip, push, modify_where, find, or_keep_some, arith,
}
use support_endpoint.Models.{TicketStatus, Ticket, TicketAssignment, TicketTag, AuditEvent}
use support_endpoint.Session.{Db, Session}
use support_endpoint.Authz.{get_membership}
use support_endpoint.Ticket.Keys.{HasKeys, only_row, Step-HasKeys}
use support_endpoint.Ticket.Repo.{get_in_workspace, get_client, get_queue, get_category}
use support_endpoint.Ticket.Rows.{is_row, is_row-found, has_id}
use support_endpoint.Ticket.Server.{Request, serve, serve_keeps, Anywhere, All-Anywhere}
use support_endpoint.Ticket.Service.{revise}
use support_endpoint.Ticket.Step.{Step, QueueHolds, CategoryHolds, MemberHolds}

pub record RefsHold (d : Db) (t : Ticket) : Type 0 where
  pub client : is_some (get_client t.workspace_id t.client_id d) ≡ true
  pub queue : QueueHolds t.workspace_id t.queue_id d
  pub category : CategoryHolds t.workspace_id t.category_id d
  pub assignee : MemberHolds t.workspace_id t.assignee_user_id d

abbrev set_status : TicketStatus → Ticket → Ticket
set_status g t = record t { status = g }

abbrev set_assignee : Option ℕ → Ticket → Ticket
set_assignee a t = record t { assignee_user_id = a }

-- Every ticket's references hold, and ticket ids are keys.
pub record IsSound (d : Db) (n : ℕ) : Type 0 where
  pub keys : HasKeys d.tickets n
  pub refs : All (RefsHold d) d.tickets

-- A database with other rows in the tables that requests about tickets write.
abbrev rewritten : Db → List Ticket → List TicketAssignment → List TicketTag → List AuditEvent → Db
rewritten d ts assignments links events = record d {
  tickets = ts;
  assignments = assignments;
  ticket_tags = links;
  audit_events = events;
}

module _ (d : Db) (ts : List Ticket) (as_ : List TicketAssignment) (links : List TicketTag)
    (events : List AuditEvent) where
  QueueHolds-frame :
      (w : ℕ) (q : Option ℕ) → QueueHolds w q d → QueueHolds w q (rewritten d ts as_ links events)
  unfolding get_queue
  QueueHolds-frame w none h = tt
  QueueHolds-frame w (some i) h = h

  CategoryHolds-frame :
      (w : ℕ) (q : Option ℕ)
      → CategoryHolds w q d
      → CategoryHolds w q (rewritten d ts as_ links events)
  unfolding get_category
  CategoryHolds-frame w none h = tt
  CategoryHolds-frame w (some i) h = h

  MemberHolds-frame :
      (w : ℕ) (u : Option ℕ) → MemberHolds w u d → MemberHolds w u (rewritten d ts as_ links events)
  unfolding get_membership
  MemberHolds-frame w none h = tt
  MemberHolds-frame w (some i) h = h

  -- References are checked against tables that a step leaves alone.
  RefsHold-frame : (t : Ticket) → RefsHold d t → RefsHold (rewritten d ts as_ links events) t
  unfolding get_client
  RefsHold-frame t h = record {
    client = h.client;
    queue = QueueHolds-frame t.workspace_id t.queue_id h.queue;
    category = CategoryHolds-frame t.workspace_id t.category_id h.category;
    assignee = MemberHolds-frame t.workspace_id t.assignee_user_id h.assignee;
  }

  All-frame :
      (us : List Ticket) → All (RefsHold d) us → All (RefsHold (rewritten d ts as_ links events)) us
  All-frame us h = All-map us RefsHold-frame h

module _ (d : Db) (w : ℕ) (u : Ticket) (f : Ticket → Ticket) where
  -- A change of the one row that was found under the workspace.
  RefsHold-changed :
      {n : ℕ}
      → HasKeys d.tickets n
      → find (is_row w u.id) d.tickets ≡ some u
      → (u.workspace_id ≡ w → RefsHold d u → RefsHold d (f u))
      → All (RefsHold d) d.tickets
      → All (RefsHold d) (modify_where (has_id u.id) f d.tickets)
  RefsHold-changed keys found keep refs =
      All-modify_where (has_id u.id) f d.tickets
        (λ x picked h.
          let e : u ≡ x = sym (h.0 (ground arith)) in
          subst (λ y. RefsHold d (f y)) e
            (keep (is_row-found w u.id u d.tickets found).1 (subst (RefsHold d) (sym e) h.1)))
        (λ x _ h. h.1)
        (All-zip (λ (x : Ticket). x.id ≡ u.id → x ≡ u) (RefsHold d) d.tickets
          (only_row w u.id u d.tickets keys.unique found) refs)

revise-QueueHolds :
    (d : Db) (w : ℕ) (new old : Option ℕ)
    → QueueHolds w new d
    → QueueHolds w old d
    → QueueHolds w (or_keep_some new old) d
revise-QueueHolds d w none old hn ho = ho
revise-QueueHolds d w (some i) old hn ho = hn

revise-CategoryHolds :
    (d : Db) (w : ℕ) (new old : Option ℕ)
    → CategoryHolds w new d
    → CategoryHolds w old d
    → CategoryHolds w (or_keep_some new old) d
revise-CategoryHolds d w none old hn ho = ho
revise-CategoryHolds d w (some i) old hn ho = hn

abbrev AllRefs : Db → Type 0
AllRefs d = All (RefsHold d) d.tickets

Step-AllRefs :
    (w : ℕ) (s s' : Session) → Step w s s' → IsSound s.stored s.next_id → AllRefs s'.stored
unfolding get_in_workspace
Step-AllRefs w s s' (Step.created t e _ hw _ ha hc hq hk ev eq _) k = subst AllRefs (sym eq) (
    All-frame s.stored _ _ _ _ (push t s.stored.tickets) (
      All-push (RefsHold s.stored) t s.stored.tickets k.refs
        (record { client = rw hw hc; queue = rw hw hq; category = rw hw hk; assignee = rw ha tt })))
Step-AllRefs w s s' (Step.updated u p e found hq hk ev eq _) k = subst AllRefs (sym eq) (
    All-frame s.stored _ _ _ _ (modify_where (has_id u.id) (revise p) s.stored.tickets) (
      RefsHold-changed s.stored w u (revise p) k.keys found
        (λ ew h. record {
          client = h.client;
          queue =
              revise-QueueHolds s.stored u.workspace_id p.queue_id u.queue_id (rw ew hq) h.queue;
          category =
              revise-CategoryHolds s.stored u.workspace_id p.category_id u.category_id (rw ew hk)
                h.category;
          assignee = h.assignee;
        })
        k.refs))
Step-AllRefs w s s' (Step.moved u g e found _ ev _ eq _) k = subst AllRefs (sym eq) (
    All-frame s.stored _ _ _ _ (modify_where (has_id u.id) (set_status g) s.stored.tickets) (
      RefsHold-changed s.stored w u (set_status g) k.keys found
        (λ ew h. record {
          client = h.client;
          queue = h.queue;
          category = h.category;
          assignee = h.assignee;
        })
        k.refs))
Step-AllRefs w s s' (Step.assigned u a r e found hm _ _ _ ev eq _) k = subst AllRefs (sym eq) (
    All-frame s.stored _ _ _ _ (modify_where (has_id u.id) (set_assignee a) s.stored.tickets) (
      RefsHold-changed s.stored w u (set_assignee a) k.keys found
        (λ ew h. record {
          client = h.client;
          queue = h.queue;
          category = h.category;
          assignee = rw ew hm;
        })
        k.refs))
Step-AllRefs w s s' (Step.tagged u l e _ _ _ _ _ eq _) k =
    subst AllRefs (sym eq) (All-frame s.stored _ _ _ _ s.stored.tickets k.refs)
Step-AllRefs w s s' (Step.tag_kept u g e _ _ _ eq _) k =
    subst AllRefs (sym eq) (All-frame s.stored _ _ _ _ s.stored.tickets k.refs)
Step-AllRefs w s s' (Step.untagged u g l e _ _ _ eq _) k =
    subst AllRefs (sym eq) (All-frame s.stored _ _ _ _ s.stored.tickets k.refs)
Step-AllRefs w s s' (Step.no_tag u g e _ _ _ eq _) k =
    subst AllRefs (sym eq) (All-frame s.stored _ _ _ _ s.stored.tickets k.refs)

-- If it is so at first, then after any run of requests about tickets, by whomever and under
-- whatever workspaces: ticket ids are keys below the supply of new ids, and every ticket's client, queue and category resolve in
-- the ticket's own workspace, where its assignee is a member.
pub serve-IsSound :
    (rs : List Request) (s : Session)
    → IsSound s.stored s.next_id
    → IsSound (serve rs s).stored (serve rs s).next_id
serve-IsSound rs s =
    serve_keeps Anywhere IsSound
      (λ w a b _ step h. record {
        keys = Step-HasKeys w a b step h.keys;
        refs = Step-AllRefs w a b step h;
      })
      rs s (All-Anywhere rs)
