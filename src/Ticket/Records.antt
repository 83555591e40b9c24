-- ===== src/Ticket/Records.antt =====
-- What the append-only tables say of a ticket, services/ticket_service.py's assignment history and
-- audited transitions, and how a new row changes it.
use support_endpoint.Prelude.{
  ℕ, ◌<◌, ◌≤◌, ◌≡◌, ◌≢◌, refl, sym, ap, ◌∙◌, Bool, true, false, Option, none, some, List, arith,
  All, All-push, All-map, All-find, push, select, select-push, select-empty, latest, latest-push,
  find, ◌==◌, ◌&&◌, str_eq, String,
}
use support_endpoint.Models.{TicketStatus, Ticket, TicketAssignment, AuditEvent, Meta}
use support_endpoint.Session.{Db}
use support_endpoint.Operations.Repo.{is_key, is_status_event, metadata_get}
use support_endpoint.Ticket.Keys.{HasKeys}
use support_endpoint.Ticket.Rows.{is_row}
use support_endpoint.Ticket.Step
use support_endpoint.Ticket.Step.{Step, IsEvent}

-- The rows about a ticket, in the order in which they were written.
unfoldable pub assignments_of : ℕ → ℕ → Db → List TicketAssignment
assignments_of w i d =
    select (λ (a : TicketAssignment). a.workspace_id == w && a.ticket_id == i) d.assignments

unfoldable pub transitions_of : ℕ → ℕ → Db → List AuditEvent
transitions_of w i d = select (is_status_event w i) d.audit_events

-- The assignee of the last entry of a ticket's assignment history.
abbrev pub last_assignee : ℕ → ℕ → Db → Option ℕ
last_assignee w i d =
    latest (λ (a : TicketAssignment). a.assignee_user_id) none (assignments_of w i d)

-- The status that an audited transition names as its target.
abbrev pub target_of : Option Meta → TicketStatus
target_of (some (Meta.status s)) = s
target_of _ = TicketStatus.new

-- The target of the last audited transition of a ticket.
abbrev pub last_status : ℕ → ℕ → Db → TicketStatus
last_status w i d =
    latest (λ (e : AuditEvent). target_of (metadata_get "to" e.metadata)) TicketStatus.new
      (transitions_of w i d)

-- The ticket is what its two histories say.
abbrev pub IsEntered : Db → Ticket → Type 0
IsEntered d t =
    (t.assignee_user_id ≡ last_assignee t.workspace_id t.id d)
    × (t.status ≡ last_status t.workspace_id t.id d)

abbrev pub IsBelow : ℕ → Meta → Type 0
IsBelow n (Meta.key i) = i < n
IsBelow n _ = Unit

-- The histories speak of ids that have been given out.
pub record HasEntries (d : Db) (n : ℕ) : Type 0 where
  pub assignments : All (λ (a : TicketAssignment). a.ticket_id < n) d.assignments
  pub events : All (λ (e : AuditEvent). IsBelow n e.resource_id) d.audit_events
  pub recorded : All (IsEntered d) d.tickets

-- An event about another ticket, or of another kind, is no transition of the ticket.
pub not_about :
    (w v i j : ℕ) {action : String} (e : AuditEvent)
    → IsEvent v j action e
    → j ≢ i
    → is_status_event w i e ≡ false
not_about w v i j e h ne = rw h.about (ground arith)

pub not_change :
    (w v i j : ℕ) {action : String} (e : AuditEvent)
    → IsEvent v j action e
    → str_eq action "servicedesk.ticket.status_changed" ≡ false
    → is_status_event w i e ≡ false
not_change w v i j e h ne = rw h.named (ground arith)

pub is_change :
    (w i : ℕ) (e : AuditEvent)
    → IsEvent w i "servicedesk.ticket.status_changed" e
    → is_status_event w i e ≡ true
is_change w i e h = rw (h.in_workspace, h.kind, h.about, h.named) (ground arith)

module _ (w i : ℕ) (e : AuditEvent) (d : Db) where
  pub status_kept :
      is_status_event w i e ≡ false → last_status w i (Step.with_event e d) ≡ last_status w i d
  unfolding transitions_of
  status_kept h = rw (select-push (is_status_event w i) e d.audit_events, h)

  pub status_moved :
      is_status_event w i e ≡ true
      → last_status w i (Step.with_event e d) ≡ target_of (metadata_get "to" e.metadata)
  unfolding transitions_of
  status_moved h =
      rw (select-push (is_status_event w i) e d.audit_events, h)
        (latest-push _ _ e (select (is_status_event w i) d.audit_events))

module _ (w i : ℕ) (row : TicketAssignment) (d : Db) where
  abbrev pub with_row : Db
  with_row = record d { assignments = push row d.assignments }

  unfoldable pub is_mine : Bool
  is_mine = row.workspace_id == w && row.ticket_id == i

  pub assignee_kept : is_mine ≡ false → last_assignee w i with_row ≡ last_assignee w i d
  unfolding assignments_of is_mine
  assignee_kept h = rw (
    select-push (λ (a : TicketAssignment). a.workspace_id == w && a.ticket_id == i) row
        d.assignments,
    h,
  )

  pub assignee_set : is_mine ≡ true → last_assignee w i with_row ≡ row.assignee_user_id
  unfolding assignments_of is_mine
  assignee_set h =
      rw
        (
          select-push (λ (a : TicketAssignment). a.workspace_id == w && a.ticket_id == i) row
              d.assignments,
          h,
        )
        (latest-push _ _ row (
          select (λ (a : TicketAssignment). a.workspace_id == w && a.ticket_id == i) d.assignments))

-- An event that is no transition leaves what is recorded.
pub IsEntered-kept :
    (w j : ℕ) {action : String} (e : AuditEvent) (d : Db)
    → IsEvent w j action e
    → str_eq action "servicedesk.ticket.status_changed" ≡ false
    → (t : Ticket) → IsEntered d t
    → IsEntered (Step.with_event e d) t
unfolding assignments_of
IsEntered-kept w j e d ev other t h = (
  h.0,
  h.1 ∙ sym (status_kept t.workspace_id t.id e d (not_change t.workspace_id w t.id j e ev other)),
)

pub IsBelow-later : (n m : ℕ) (x : Meta) → n ≤ m → IsBelow n x → IsBelow m x
IsBelow-later n m (Meta.key i) le h = omega arith
IsBelow-later n m Meta.null le h = tt
IsBelow-later n m (Meta.text x) le h = tt
IsBelow-later n m (Meta.size x) le h = tt
IsBelow-later n m (Meta.status x) le h = tt
IsBelow-later n m (Meta.priority x) le h = tt
IsBelow-later n m (Meta.task_status x) le h = tt

pub events_pushed :
    (w i n m : ℕ) {action : String} (e : AuditEvent) (es : List AuditEvent)
    → IsEvent w i action e
    → i < m
    → n ≤ m
    → All (λ (e : AuditEvent). IsBelow n e.resource_id) es
    → All (λ (e : AuditEvent). IsBelow m e.resource_id) (push e es)
events_pushed w i n m e es ev lt le h =
    All-push _ e es (All-map es (λ x b. IsBelow-later n m x.resource_id le b) h) (rw ev.about lt)

pub lt_trans_le : {a b c : ℕ} → a < b → b ≤ c → a < c
lt_trans_le h k = omega arith

pub found_below :
    (w i n : ℕ) (t : Ticket) (d : Db)
    → HasKeys d.tickets n
    → find (is_row w i) d.tickets ≡ some t
    → t.id < n
found_below w i n t d k h = All-find (λ (x : Ticket). x.id < n) (is_row w i) d.tickets t k.fresh h

-- A new ticket has no history yet.
pub IsEntered-new :
    (w n : ℕ) {action : String} (e : AuditEvent) (d : Db) (t : Ticket)
    → HasEntries d n
    → t.id ≡ n
    → t.status ≡ TicketStatus.new
    → t.assignee_user_id ≡ none
    → IsEvent w t.id action e
    → str_eq action "servicedesk.ticket.status_changed" ≡ false
    → IsEntered (Step.with_event e d) t
unfolding assignments_of transitions_of
IsEntered-new w n e d t k i st free ev other = (
  free
      ∙ sym (
          ap (latest _ none) (
            select-empty _ d.assignments
              (All-map d.assignments (λ a b. ground arith) k.assignments))),
  st
      ∙ sym (
          ap (latest _ TicketStatus.new) (
            select-empty _ d.audit_events (All-map d.audit_events (λ x b. old_event x b) k.events)))
      ∙ sym
          (status_kept t.workspace_id t.id e d (not_change t.workspace_id w t.id t.id e ev other)),
)
  where
    old_key : (m : Meta) → IsBelow n m → is_key m t.id ≡ false
    old_key (Meta.key j) b = ground arith
    old_key _ b = refl

    old_event :
        (x : AuditEvent) → IsBelow n x.resource_id → is_status_event t.workspace_id t.id x ≡ false
    old_event x b = let o = old_key x.resource_id b in ground arith
