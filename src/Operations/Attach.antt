-- ===== src/Operations/Attach.antt =====
-- attach_sla of services/operations_service.py: the clock of one ticket.
use support_endpoint.Prelude.{
  ℕ, ◌+◌, ◌≡◌, refl, Bool, true, ◌&&◌, some, List, arith, inl, inr, Option-cases, Bool-cases, find,
  any, push, ◌==◌,
}
use support_endpoint.Models.{Ticket, TicketSla, SlaPolicy, TicketPriority}
use support_endpoint.Session.{Session, Result, ok}
use support_endpoint.Operations.Repo.{
  get_policy, upsert_policy, create_ticket_sla, get_ticket_sla, find_policy, write_policy,
}
use support_endpoint.Operations.Service.{
  ensure_policy, default_policy, attach_if_missing, attach_sla,
}

-- `TicketSLA.ticket_id == Ticket.id`
abbrev pub clock_of : ℕ → TicketSla → Bool
clock_of i s = s.ticket_id == i

abbrev pub HasClock : List TicketSla → ℕ → Type 0
HasClock slas i = any (clock_of i) slas ≡ true

-- What `ensure_policy` changes: policies, and the supply of ids.
abbrev pub with_policies : List SlaPolicy → ℕ → Session → Session
with_policies ps n s = record s { work = record s.work { policies = ps }; next_id = n }

pub ensure_policy_lem :
    (w : ℕ) (p : TicketPriority) (s : Session)
    → (policy : SlaPolicy) × (ps : List SlaPolicy) × (n : ℕ) × (ensure_policy w p s
        ≡ (ok policy, with_policies ps n s))
unfolding ensure_policy default_policy upsert_policy write_policy
ensure_policy_lem w p s = elim (Option-cases (get_policy w p s.work)) [
  | inr (policy, e) ↦ rw e (policy, s.work.policies, s.next_id, refl)
  | inl e ↦ elim (Option-cases (find_policy w p s.work)) [
    | inl f ↦ rw (e, f) (_, _, _, refl)
    | inr (item, f) ↦ rw (e, f) (_, _, _, refl)
  ]
]

-- The session in which a clock was added.
abbrev pub attached : TicketSla → List SlaPolicy → ℕ → Session → Session
attached row ps n s = record s {
  work = record s.work { policies = ps; slas = push row s.work.slas };
  next_id = n;
}

-- The session after `attach_sla`: the ticket had a clock in its workspace, or has a new one.
pub data Attached (t : Ticket) (s : Session) : Result (Unit {0}) × Session → Type 0 where
  had :
      (item : TicketSla)
      → get_ticket_sla t.workspace_id t.id s.work ≡ some item
      → Attached t s (ok tt, s)
  has_new :
      (row : TicketSla) (ps : List SlaPolicy) (n : ℕ)
      → row.workspace_id ≡ t.workspace_id
      → row.ticket_id ≡ t.id
      → Attached t s (ok tt, attached row ps n s)

-- A ticket for which `create_ticket_sla` meets no constraint: if a clock has its id, its workspace
-- finds it.
abbrev pub Attachable : List TicketSla → Ticket → Type 0
Attachable slas t =
    HasClock slas t.id
    → (item : TicketSla) × (find
          (λ (s : TicketSla). s.workspace_id == t.workspace_id && s.ticket_id == t.id) slas
        ≡ some item)

pub attach_sla-Attached :
    (t : Ticket) (s : Session) → Attachable s.work.slas t → Attached t s (attach_sla t s)
unfolding attach_sla attach_if_missing create_ticket_sla get_ticket_sla
attach_sla-Attached t s h = elim (Option-cases (get_ticket_sla t.workspace_id t.id s.work)) [
  | inr (item, e) ↦ rw e (Attached.had item e)
  | inl e ↦
      let (policy, ps, n, p) = ensure_policy_lem t.workspace_id t.priority s in
      elim (Bool-cases (any (clock_of t.id) s.work.slas)) [
        | inl c ↦ ground (arith, h c)
        | inr c ↦ rw (e, p, c) (Attached.has_new _ ps (n + 1) refl refl)
      ]
]
