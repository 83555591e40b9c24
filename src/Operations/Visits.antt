-- ===== src/Operations/Visits.antt =====
-- What the evaluation of one ticket does to the stored clock, the notifications and the counters,
-- in terms of the visits of Operations/Alerts.antt.
use support_endpoint.Prelude.{
  ℕ, ◌+◌, ◌≡◌, refl, sym, ap, subst, ◌∙◌, String, some, List, [], ◌∷◌, arith, length, length-append,
  modify_where, modify_where-modify_where, ◌==◌,
}
use support_endpoint.Models.{Ticket, TicketSla, SlaPolicy, Notification}
use support_endpoint.Session.{Session, Result, ok, err}
use support_endpoint.Operations.Alerts.{Visit, visit, refreshed, is_warned, is_breached}
use support_endpoint.Operations.Clock.{
  minutes, note_response, note_resolution, resolved_event, Outcome, check_response,
  check_resolution,
}
use support_endpoint.Operations.Repo.{
  get_ticket_sla, get_policy_by_id, first_outbound_at, ticket_status_events, create_notification,
  assign_sla,
}
use support_endpoint.Operations.Service.{refresh_sla_from_history, load_sla}
use support_endpoint.Operations.Evaluation.{
  Counters, count, sla_notification, check_targets, evaluate_ticket, recipient,
}

abbrev pub weight : Outcome → ℕ
weight o = is_warned o + is_breached o

-- A session with other notifications, clocks and ids.
abbrev with_alerts : List Notification → ℕ → Session → Session
with_alerts ns n s = record s { work = record s.work { notifications = ns }; next_id = n }

-- An outcome other than `quiet` adds one notification, and nothing else but an id.
sla_notification_lem :
    (t : Ticket) (user : ℕ) (target : String) (o : Outcome) (s : Session)
    → (ns : List Notification) × (n : ℕ) × (length ns ≡ length s.work.notifications + weight o)
      × (sla_notification t user target o s ≡ (ok tt, with_alerts ns n s))
unfolding sla_notification create_notification
sla_notification_lem t user target Outcome.quiet s =
    (s.work.notifications, s.next_id, omega arith, refl)
sla_notification_lem t user target Outcome.warned s =
    (_, _, length-append s.work.notifications (_ ∷ []), refl)
sla_notification_lem t user target Outcome.breached s =
    (_, _, length-append s.work.notifications (_ ∷ []), refl)

refreshed-keeps :
    (v : Visit) (item : TicketSla)
    → ((refreshed v item).id ≡ item.id) × ((refreshed v item).policy_id ≡ item.policy_id)
unfolding note_response note_resolution
refreshed-keeps v item = ground arith

visit-keeps : (v : Visit) (item : TicketSla) → (visit v item).1.id ≡ item.id
unfolding check_response check_resolution
visit-keeps v item = ground (arith, refreshed-keeps v item)

-- The visit of a ticket's clock at the session's instant, under a policy.
abbrev pub visit_of : Ticket → SlaPolicy → Session → Visit
visit_of t policy s = record {
  now = s.now;
  warning_delta = minutes policy.warning_minutes_before;
  first_outbound = first_outbound_at t.workspace_id t.id s.work;
  resolved = resolved_event (ticket_status_events t.workspace_id t.id s.work);
}

-- How the evaluation of a ticket ends, whose clock is `item`: the visited clock is in the place of
-- the old one, each alert has added a notification and is counted, and the rest is as it was.
abbrev pub Visited :
    Ticket → SlaPolicy → TicketSla → Counters → Session → Result Counters × Session → Type 0
Visited t policy item c s (ok c', s') =
    let ((first, second), next) = visit (visit_of t policy s) item in
    (s'.work.slas ≡ modify_where (λ (x : TicketSla). x.id == item.id) (λ _. next) s.work.slas)
    × (length s'.work.notifications ≡ length s.work.notifications + (weight first + weight second))
    × (c'.evaluated ≡ c.evaluated + 1)
    × (c'.warnings ≡ c.warnings + (is_warned first + is_warned second))
    × (c'.breaches ≡ c.breaches + (is_breached first + is_breached second))
    × (s'.work.tickets ≡ s.work.tickets)
    × (s'.stored ≡ s.stored)
Visited t policy item c s (err e, s') = ⊥

-- The session after `_refresh_sla_from_history` on a ticket that has a clock.
abbrev after_refresh : Ticket → SlaPolicy → TicketSla → Session → Session
after_refresh t policy item s =
    let new = refreshed (visit_of t policy s) item in
    record s {
      work = record s.work {
        slas = modify_where (λ (x : TicketSla). x.id == item.id) (λ _. new) s.work.slas;
      };
    }

refresh_lem :
    (t : Ticket) (policy : SlaPolicy) (item : TicketSla) (s : Session)
    → get_ticket_sla t.workspace_id t.id s.work ≡ some item
    → refresh_sla_from_history t s
      ≡ (ok (refreshed (visit_of t policy s) item), after_refresh t policy item s)
unfolding refresh_sla_from_history load_sla assign_sla
refresh_lem t policy item s h = rw h refl

count_lem :
    (a b : Outcome) (c : Counters)
    → ((count b (count a c)).evaluated ≡ c.evaluated)
      × ((count b (count a c)).warnings ≡ c.warnings + (is_warned a + is_warned b))
      × ((count b (count a c)).breaches ≡ c.breaches + (is_breached a + is_breached b))
unfolding count
count_lem a b c = ground arith

-- The session after the two checks.
abbrev after_checks : List Notification → ℕ → TicketSla → TicketSla → Session → Session
after_checks ns n item next s = record s {
  work = record s.work {
    notifications = ns;
    slas = modify_where (λ (x : TicketSla). x.id == item.id) (λ _. next) s.work.slas;
  };
  next_id = n;
}

check_targets_lem :
    (t : Ticket) (policy : SlaPolicy) (item : TicketSla) (c : Counters) (s : Session)
    → let first = check_response s.now (minutes policy.warning_minutes_before) item in
      let second = check_resolution s.now (minutes policy.warning_minutes_before) first.1 in
      (ns : List Notification) × (n : ℕ) × (length ns
        ≡ length s.work.notifications + (weight first.0 + weight second.0))
      × (check_targets t item c (some policy) s
          ≡ (ok (count second.0 (count first.0 c)), after_checks ns n item second.1 s))
unfolding check_targets assign_sla
check_targets_lem t policy item c s =
    let delta = minutes policy.warning_minutes_before in
    let first = check_response s.now delta item in
    let second = check_resolution s.now delta first.1 in
    let user = recipient t t.assignee_user_id in
    let (ns, n, l, e) = sla_notification_lem t user "First response" first.0 s in
    let (ms, m, k, f) = sla_notification_lem t user "Resolution" second.0 (with_alerts ns n s) in
    (ms, m, omega arith, rw (e, f) refl)

-- The evaluation of a ticket whose clock and policy are found is the two checks after a refresh.
evaluate_ticket_lem :
    (t : Ticket) (policy : SlaPolicy) (item : TicketSla) (c : Counters) (s : Session)
    → get_ticket_sla t.workspace_id t.id s.work ≡ some item
    → get_policy_by_id item.policy_id s.work ≡ some policy
    → evaluate_ticket c (some t) s
      ≡ check_targets t
          (refreshed (visit_of t policy s) item)
          (record c { evaluated = c.evaluated + 1 })
          (some policy)
          (after_refresh t policy item s)
unfolding evaluate_ticket get_policy_by_id
evaluate_ticket_lem t policy item c s h p =
    let new = refreshed (visit_of t policy s) item in
    rw (refresh_lem t policy item s h) (
      ap
        (λ o.
          check_targets t new (record c { evaluated = c.evaluated + 1 }) o
            (after_refresh t policy item s))
        (ap (λ i. get_policy_by_id i s.work) (refreshed-keeps (visit_of t policy s) item).1 ∙ p))

-- The evaluation of a ticket whose clock and policy are found does not raise; it puts the clock
-- after one visit, at the session's instant and with what the history says, in the place of the
-- clock, adds one notification for each alert of the visit, counts the alerts, and leaves the tickets
-- and the stored database alone.
pub evaluate_ticket-Visited :
    (t : Ticket) (policy : SlaPolicy) (item : TicketSla) (c : Counters) (s : Session)
    → get_ticket_sla t.workspace_id t.id s.work ≡ some item
    → get_policy_by_id item.policy_id s.work ≡ some policy
    → Visited t policy item c s (evaluate_ticket c (some t) s)
evaluate_ticket-Visited t policy item c s h p =
    let v = visit_of t policy s in
    let new = refreshed v item in
    let same = (refreshed-keeps v item).0 in
    let c' = record c { evaluated = c.evaluated + 1 } in
    let s' = after_refresh t policy item s in
    let (ns, n, l, e) = check_targets_lem t policy new c' s' in
    let ((first, second), next) = visit v item in
    let counted = count_lem first second c' in
    subst (Visited t policy item c s) (sym (evaluate_ticket_lem t policy item c s h p ∙ e)) (
      ap (λ i. modify_where (λ (x : TicketSla). x.id == i) (λ _. next) s'.work.slas) same
          ∙ modify_where-modify_where (λ (x : TicketSla). x.id == item.id) (λ _. new) (λ _. next)
              s.work.slas (λ x _. ground (arith, same)),
      l,
      counted.0,
      counted.1,
      counted.2,
      refl,
      refl,
    )
