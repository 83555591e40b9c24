-- ===== src/Ticket/Validation.antt =====
-- The validation helpers of services/ticket_service.py: each accepts the reference, which then
-- resolves in the workspace, or raises; neither changes the session.
use support_endpoint.Prelude.{
  ℕ, ◌≡◌, refl, true, Option, none, some, ◌⊎◌, inl, inr, is_some, Option-cases, arith,
}
use support_endpoint.Session.{Session, Result, ok, err, Error, validation}
use support_endpoint.Authz.{get_membership}
use support_endpoint.Ticket.Repo
use support_endpoint.Ticket.Service.{
  validate_client, validate_queue, validate_category, validate_assignee,
}
use support_endpoint.Ticket.Step.{QueueHolds, CategoryHolds, MemberHolds}

abbrev pub Passes : Type 0 → Error → Result (Unit {0}) × Session → Session → Type 0
Passes P e out s = (P × (out ≡ (ok tt, s))) ⊎ (out ≡ (err e, s))

pub validate_client-Passes :
    (w i : ℕ) (s : Session)
    → Passes
        (is_some (Repo.get_client w i s.work) ≡ true)
        (validation "client_id does not refer to a client in this workspace")
        (validate_client w i s)
        s
unfolding validate_client
validate_client-Passes w i s = elim (Option-cases (Repo.get_client w i s.work)) [
  | inl e ↦ inr (ground arith)
  | inr (c, e) ↦ inl (ground arith, ground arith)
]

pub validate_queue-Passes :
    (w : ℕ) (q : Option ℕ) (s : Session)
    → Passes
        (QueueHolds w q s.work)
        (validation "queue_id does not refer to a queue in this workspace")
        (validate_queue w q s)
        s
unfolding validate_queue
validate_queue-Passes w none s = inl (tt, refl)
validate_queue-Passes w (some i) s = elim (Option-cases (Repo.get_queue w i s.work)) [
  | inl e ↦ inr (rw e)
  | inr (c, e) ↦ inl (rw e, rw e)
]

pub validate_category-Passes :
    (w : ℕ) (q : Option ℕ) (s : Session)
    → Passes
        (CategoryHolds w q s.work)
        (validation "category_id does not refer to a category in this workspace")
        (validate_category w q s)
        s
unfolding validate_category
validate_category-Passes w none s = inl (tt, refl)
validate_category-Passes w (some i) s = elim (Option-cases (Repo.get_category w i s.work)) [
  | inl e ↦ inr (rw e)
  | inr (c, e) ↦ inl (rw e, rw e)
]

pub validate_assignee-Passes :
    (w : ℕ) (q : Option ℕ) (s : Session)
    → Passes
        (MemberHolds w q s.work)
        (validation "assignee_user_id is not a member of this workspace")
        (validate_assignee w q s)
        s
unfolding validate_assignee
validate_assignee-Passes w none s = inl (tt, refl)
validate_assignee-Passes w (some i) s = elim (Option-cases (get_membership w i s.work)) [
  | inl e ↦ inr (rw e)
  | inr (c, e) ↦ inl (rw e, rw e)
]
