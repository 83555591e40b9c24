-- ===== src/Operations/Evaluation.antt =====
-- services/operations_service.py: evaluate_sla and the notifications that it sends.
use support_endpoint.Prelude.{ℕ, ◌+◌, String, Option, none, some, List, [], ◌∷◌}
use support_endpoint.Models.{NotificationType, Ticket, SlaPolicy, TicketSla}
use support_endpoint.Session.{Action, ◌>>=◌, ◌>>◌, pure, query, commit, utcnow}
use Prim.Native.String.{◌++◌ as text_append}
use support_endpoint.Ticket.Repo.{get_in_workspace}
use support_endpoint.Operations.Repo
use support_endpoint.Operations.Repo.{OperationsQueries}
use support_endpoint.Operations.Clock.{minutes, Outcome, check_response, check_resolution}
use support_endpoint.Operations.Service.{materialize_workspace_slas, refresh_sla_from_history}

-- `ticket.assignee_user_id or ticket.creator_user_id`
abbrev pub recipient : Ticket → Option ℕ → ℕ
recipient ticket none = ticket.creator_user_id
recipient ticket (some user_id) = user_id

-- `_sla_notification`, called on the outcomes that have one.
unfoldable pub sla_notification : Ticket → ℕ → String → Outcome → Action (Unit {0})
unfolding Repo.create_notification
sla_notification ticket user_id target Outcome.quiet = pure tt
sla_notification ticket user_id target Outcome.warned = do
  Repo.create_notification ticket.workspace_id user_id NotificationType.sla_warning
      (text_append target " SLA approaching") ticket.subject (some ticket.id)
  pure tt
sla_notification ticket user_id target Outcome.breached = do
  Repo.create_notification ticket.workspace_id user_id NotificationType.sla_breached
      (text_append target " SLA breached") ticket.subject (some ticket.id)
  pure tt

-- The counters `evaluated`, `warnings` and `breaches`.
pub record Counters : Type 0 where
  pub evaluated : ℕ
  pub warnings : ℕ
  pub breaches : ℕ

unfoldable pub count : Outcome → Counters → Counters
count Outcome.quiet c = c
count Outcome.warned c = record c { warnings = c.warnings + 1 }
count Outcome.breached c = record c { breaches = c.breaches + 1 }

-- The two checks of the loop's body.
unfoldable pub check_targets : Ticket → TicketSla → Counters → Option SlaPolicy → Action Counters
unfolding sla_notification Repo.assign_sla
check_targets ticket item c none = pure c
check_targets ticket item c (some policy) = do
  now ← utcnow
  let user_id : ℕ = recipient ticket ticket.assignee_user_id
  let warning_delta : ℕ = minutes policy.warning_minutes_before
  let first : Outcome × TicketSla = check_response now warning_delta item
  sla_notification ticket user_id "First response" first.0
  let second : Outcome × TicketSla = check_resolution now warning_delta first.1
  sla_notification ticket user_id "Resolution" second.0
  Repo.assign_sla item.id (λ _. second.1)
  pure (count second.0 (count first.0 c))

unfoldable pub evaluate_ticket : Counters → Option Ticket → Action Counters
unfolding refresh_sla_from_history check_targets
evaluate_ticket c none = pure c
evaluate_ticket c (some ticket) = do
  item ← refresh_sla_from_history ticket
  policy ← query (Repo.get_policy_by_id item.policy_id)
  check_targets ticket item (record c { evaluated = c.evaluated + 1 }) policy

unfoldable pub evaluate_each : ℕ → List TicketSla → Counters → Action Counters
unfolding evaluate_ticket
evaluate_each workspace_id [] c = pure c
evaluate_each workspace_id (item ∷ items) c = do
  ticket ← query (get_in_workspace workspace_id item.ticket_id)
  c' ← evaluate_ticket c ticket
  evaluate_each workspace_id items c'

unfoldable pub evaluate_sla : ℕ → Action Counters
unfolding materialize_workspace_slas evaluate_each
evaluate_sla workspace_id = do
  materialize_workspace_slas workspace_id
  items ← query (Repo.list_active_slas workspace_id)
  c ← evaluate_each workspace_id items (record { evaluated = 0; warnings = 0; breaches = 0 })
  commit
  pure c
