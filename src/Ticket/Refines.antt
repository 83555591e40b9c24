-- ===== src/Ticket/Refines.antt =====
-- Each write of services/ticket_service.py, run as a request of its own, takes one step of
-- Ticket/Step.antt and returns the stored ticket, or raises and leaves the database alone.
use support_endpoint.Prelude.{
  ℕ, ◌≡◌, refl, inl, inr, Option, none, some, Option-cases, Bool-cases, find, modify_where,
  modify_where-modify_where, arith, sym, push, or_keep_some, String, Bool, List, ◌==◌, ◌&&◌,
}
use support_endpoint.Models.{TicketStatus, Ticket, TicketTag, Tag, Meta}
use support_endpoint.Session.{Db, Session, Result, ok, err, request}
use support_endpoint.Ticket.Status.{is_transition_allowed}
use support_endpoint.Ticket.Repo
use support_endpoint.Ticket.Repo.{get_in_workspace, TicketCreateRequest}
use support_endpoint.Ticket.Service
use support_endpoint.Ticket.Service.{TicketUpdateRequest, revise}
use support_endpoint.Ticket.Rows.{
  is_row, has_id, revise-KeepsKey, status-KeepsKey, assignee-KeepsKey, is_row-found, find_self,
  find-changed, find-inserted,
}
use support_endpoint.Ticket.Validation.{
  validate_client-Passes, validate_queue-Passes, validate_category-Passes, validate_assignee-Passes,
}
use support_endpoint.Ticket.Step
use support_endpoint.Ticket.Step.{Step, IsEvent, with_event}

-- How a request ends: a raise leaves the stored database alone, or it takes a step and returns
-- the ticket as it is stored.
abbrev pub Ends : ℕ → Session → Result Ticket × Session → Type 0
Ends w s (ok t, s') = Step w s s' × (get_in_workspace w t.id s'.stored ≡ some t)
Ends w s (err e, s') = (s'.stored ≡ s.stored) × (s'.next_id ≡ s.next_id)

-- `TicketTag.ticket_id == ticket_id, TicketTag.tag_id == tag_id`
abbrev is_link : ℕ → ℕ → TicketTag → Bool
is_link i tag_id l = l.ticket_id == i && l.tag_id == tag_id

-- `Tag.id == tag_id, Tag.workspace_id == workspace_id`
abbrev is_tag : ℕ → ℕ → Tag → Bool
is_tag w tag_id t = t.id == tag_id && t.workspace_id == w

-- Categories do not depend on the tickets.
CategoryHolds-frame :
    (w : ℕ) (c : Option ℕ) (d : Db) (xs : List Ticket)
    → Step.CategoryHolds w c (record d { tickets = xs })
    → Step.CategoryHolds w c d
unfolding Repo.get_category
CategoryHolds-frame w none d xs h = tt
CategoryHolds-frame w (some i) d xs h = h

module _ (w actor : ℕ) (s : Session) where
  -- What `record_success` writes.
  event :
      {i j now : ℕ} {action : String} {metadata : List (String × Meta)}
      → IsEvent w i action (record {
        id = j;
        workspace_id = some w;
        actor_user_id = some actor;
        action = action;
        resource_type = "ticket";
        resource_id = Meta.key i;
        correlation_id = "";
        result = "success";
        metadata = metadata;
        created_at = now;
      })
  event = record { in_workspace = refl; kind = refl; about = refl; named = refl }

  -- The session of a new request.
  abbrev begin : Session
  begin = record s { work = s.stored }

  pub transition_status-Ends :
      (i : ℕ) (target : TicketStatus)
      → Ends w s (request (Service.transition_status w actor i target) s)
  unfolding Service.transition_status request get_in_workspace
  transition_status-Ends i target = elim (Option-cases (find (is_row w i) s.stored.tickets)) [
    | inl e ↦ rw e (refl, refl)
    | inr (t, e) ↦ rw e (elim (Bool-cases (is_transition_allowed t.status target)) [
      | inl a ↦
          let found =
            find-changed w i t (λ x. record x { status = target }) s.stored.tickets
              (status-KeepsKey target) e in
          rw (a, found)
            (
              Step.moved t target _ (find_self w i t s.stored.tickets e) a (event, refl) refl refl
                  refl,
              found,
            )
      | inr a ↦ rw a (refl, refl)
    ])
  ]

  pub assign-Ends : (i : ℕ) (user : Option ℕ) → Ends w s (request (Service.assign w actor i user) s)
  unfolding Service.assign request get_in_workspace
  assign-Ends i user = elim (Option-cases (find (is_row w i) s.stored.tickets)) [
    | inl e ↦ rw e (refl, refl)
    | inr (t, e) ↦ rw e (elim (validate_assignee-Passes w user begin) [
      | inl (h, v) ↦
          let found =
            find-changed w i t (λ x. record x { assignee_user_id = user }) s.stored.tickets
              (assignee-KeepsKey user) e in
          rw (v, found)
            (
              Step.assigned t user _ _ (find_self w i t s.stored.tickets e) h refl
                  (sym (is_row-found w i t s.stored.tickets e).0) (refl, refl) (event, refl) refl
                  (omega arith),
              found,
            )
      | inr v ↦ rw v (refl, refl)
    ])
  ]

  pub create-Ends : (p : TicketCreateRequest) → Ends w s (request (Service.create w actor p) s)
  unfolding Service.create request get_in_workspace
  create-Ends p = elim (validate_client-Passes w p.client_id begin) [
    | inr c ↦ rw c (refl, refl)
    | inl (hc, c) ↦ rw c (elim (validate_queue-Passes w p.queue_id begin) [
      | inr q ↦ rw q (refl, refl)
      | inl (hq, q) ↦ rw q (elim (validate_category-Passes w p.category_id begin) [
        | inr k ↦ rw k (refl, refl)
        | inl (hk, k) ↦
            let t = Repo.new_ticket s.next_id s.now w actor p in
            let (t', found) = find-inserted w t s.stored.tickets refl in
            rw (k, found)
              (
                Step.created t _ refl refl refl refl hc hq hk (event, refl) refl (omega arith),
                find_self w t.id t' (push t s.stored.tickets) found,
              )
      ])
    ])
  ]

  pub update-Ends :
      (i : ℕ) (p : TicketUpdateRequest) → Ends w s (request (Service.update w actor i p) s)
  unfolding Service.update request get_in_workspace
  update-Ends i p = elim (Option-cases (find (is_row w i) s.stored.tickets)) [
    | inl e ↦ rw e (refl, refl)
    | inr (t, e) ↦ rw e (elim (validate_queue-Passes w p.queue_id begin) [
      | inr q ↦ rw q (refl, refl)
      | inl (hq, q) ↦
          let f : Ticket → Ticket =
            λ x. record x { queue_id = or_keep_some p.queue_id x.queue_id } in
          let d = record s.stored { tickets = modify_where (has_id t.id) f s.stored.tickets } in
          rw q (elim (validate_category-Passes w p.category_id (record s { work = d })) [
            | inr k ↦ rw k (refl, refl)
            | inl (hk, k) ↦
                rw
                  (
                    k,
                    modify_where-modify_where (has_id t.id) f
                        (λ x. record (revise p x) { queue_id = x.queue_id }) s.stored.tickets
                        (λ x e. e),
                    find-changed w i t (revise p) s.stored.tickets (revise-KeepsKey p) e,
                  )
                  (
                    Step.updated t p _ (find_self w i t s.stored.tickets e) hq
                        (CategoryHolds-frame w p.category_id s.stored
                          (modify_where (has_id t.id) f s.stored.tickets) hk)
                        (event, refl) refl refl,
                    find-changed w i t (revise p) s.stored.tickets (revise-KeepsKey p) e,
                  )
          ])
    ])
  ]

  pub remove_tag-Ends : (i tag_id : ℕ) → Ends w s (request (Service.remove_tag w actor i tag_id) s)
  unfolding Service.remove_tag request get_in_workspace Repo.get_ticket_tag
  remove_tag-Ends i tag_id = elim (Option-cases (find (is_row w i) s.stored.tickets)) [
    | inl e ↦ rw e (refl, refl)
    | inr (t, e) ↦
        let (same, _) = is_row-found w i t s.stored.tickets e in
        let e' = find_self w i t s.stored.tickets e in
        rw (← same, e')
          (elim (Option-cases (find (is_link t.id tag_id) s.stored.ticket_tags)) [
            | inl h ↦ rw (h, e') (Step.no_tag t tag_id _ e' h (event, refl) refl refl, e')
            | inr (link, h) ↦
                rw (h, e') (Step.untagged t tag_id link _ e' h (event, refl) refl refl, e')
          ])
  ]

  pub add_tag-Ends : (i tag_id : ℕ) → Ends w s (request (Service.add_tag w actor i tag_id) s)
  unfolding Service.add_tag request get_in_workspace Repo.get_ticket_tag Repo.get_tag
  add_tag-Ends i tag_id = elim (Option-cases (find (is_row w i) s.stored.tickets)) [
    | inl e ↦ rw e (refl, refl)
    | inr (t, e) ↦
        let (same, _) = is_row-found w i t s.stored.tickets e in
        let e' = find_self w i t s.stored.tickets e in
        rw (← same, e')
          (elim (Option-cases (find (is_tag w tag_id) s.stored.tags)) [
            | inl g ↦ rw g (refl, refl)
            | inr (tag, g) ↦
                rw g (elim (Option-cases (find (is_link t.id tag_id) s.stored.ticket_tags)) [
                  | inl h ↦
                      rw (h, e')
                        (
                          Step.tagged t
                              (record { id = s.next_id; ticket_id = t.id; tag_id = tag_id }) _ e'
                              refl (rw g) h (event, refl) refl (omega arith),
                          e',
                        )
                  | inr (link, h) ↦
                      rw (h, e') (Step.tag_kept t tag_id _ e' (rw h) (event, refl) refl refl, e')
                ])
          ])
  ]
