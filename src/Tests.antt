-- ===== src/Tests.antt =====
-- The theorems at the small database of Samples.antt.
mod Workspaces
mod Communication
mod Portal
mod RateLimit
mod Auth
mod Config
mod Gateway
mod Scheduler
mod Observability
mod Knowledge
mod Lookup
use support_endpoint.Prelude.{
  pos, ◌+◌, ◌≤◌, ◌≡◌, ◌≢◌, ◌↔◌, refl, arith, true, none, some, List, [], ◌∷◌, ◌++◌, clamp_limit,
  ◌⊎◌, length, any, modify_where, find, select, sort_by,
}
use support_endpoint.Models.{TicketStatus, Ticket, TaskStatus, WorkspaceMembership}
use support_endpoint.Session.{ok, err, not_found, authentication, request}
use support_endpoint.Authz.{require_permission, get_membership}
use support_endpoint.Authz.Permissions.{tickets_update}
use support_endpoint.Authz.Guard.{IsGranted, require_permission_lem}
use support_endpoint.Ticket.Calls.{Call, handle}
use support_endpoint.Ticket.Refines.{Ends}
use support_endpoint.Ticket.Routes.{handle-Ends}
use support_endpoint.Ticket.Repo.{get_client, list_for_ticket}
use support_endpoint.Ticket.Permission.{needed, Permits, handle-Permits}
use support_endpoint.Ticket.Rows.{has_id}
use support_endpoint.Ticket.Server.{serve}
use support_endpoint.Ticket.Keys.{HasKeys}
use support_endpoint.Ticket.Lifecycle.{Continues, Lives, serve-Continues}
use support_endpoint.Ticket.Isolation.{SameRows, serve-SameRows}
use support_endpoint.Ticket.Integrity.{IsSound, serve-IsSound}
use support_endpoint.Ticket.Instants.{AfterEach, InOrder}
use support_endpoint.Ticket.History.{HasHistory, serve-HasHistory}
use support_endpoint.Ticket.Tags.{PairsUnique, serve-PairsUnique}
use support_endpoint.Ticket.Status.{is_transition_allowed}
use support_endpoint.Ticket.Graph.{StatusPath, StatusPath-iff, is_transition_allowed_iff, IsWaiting}
use support_endpoint.Operations.Clock.{Outcome, check_response}
use support_endpoint.Operations.Service.{materialize_workspace_slas}
use support_endpoint.Operations.Coverage.{Materialized, materialize_workspace_slas-Materialized}
use support_endpoint.Operations.Alerts.{
  Visit, responses, resolutions, is_warned, is_breached, visit-AtMostOnce,
  check_response-late_warning,
}
use support_endpoint.Operations.Tasks.{Answer, Stores, asked, set_task_status-Answer}
use support_endpoint.Operations.Repo.{get_task, ticket_status_events}
use support_endpoint.Crm.Router.{deactivation}
use support_endpoint.Crm.Service.{update_client, delete_contact}
use support_endpoint.Crm.Integrity.{Updates, Deletes, update_client-Updates, delete_contact-Deletes}
use support_endpoint.Operations.Visits.{Visited, evaluate_ticket-Visited}
use support_endpoint.Operations.Evaluation.{Counters, evaluate_ticket}
use support_endpoint.Operations.Repo.{get_policy_by_id, get_ticket_sla}
use support_endpoint.Audit.{record_event}
use support_endpoint.Auth.Calls.{AuthCall, AuthRequest, serve_auth}
use support_endpoint.Auth.Repo.{get_by_token_hash, get_by_id, is_active, revoke, create_session}
use support_endpoint.Auth.Router.{refresh as refresh_route}
use support_endpoint.Auth.Service.{TokenPair, issue_token_pair, refresh as refresh_service}
use support_endpoint.Auth.Rotation.{refresh_once}
use support_endpoint.Samples.{
  plain_security, signed_in, medium_policy, late_db, late_desk, printer_ticket, desk, desk_db,
  morning, any_ticket, plain_queries, running_clock,
}

desk-HasKeys : HasKeys desk.stored.tickets desk.next_id
desk-HasKeys = record { fresh = (omega arith, tt); unique = (tt, tt) }

desk-IsSound : IsSound desk.stored desk.next_id
unfolding find get_client
desk-IsSound = record {
  keys = desk-HasKeys;
  refs = (record { client = refl; queue = tt; category = tt; assignee = tt }, tt);
}

desk-HasHistory : HasHistory desk.stored desk.next_id
unfolding list_for_ticket ticket_status_events select sort_by
desk-HasHistory = record { assignments = tt; events = tt; recorded = ((refl, refl), tt) }

handle-Ends_example : Ends 1 desk (handle 1 3 (Call.transition 20 TicketStatus.opened) desk)
handle-Ends_example = handle-Ends 1 3 desk (Call.transition 20 TicketStatus.opened)

handle-Permits_example :
    Permits
      (needed (Call.transition 20 TicketStatus.closed))
      1
      3
      desk
      (handle 1 3 (Call.transition 20 TicketStatus.closed) desk)
handle-Permits_example = handle-Permits 1 3 desk (Call.transition 20 TicketStatus.closed)

serve-Continues_example :
    Lives printer_ticket morning desk
    × (t' : Ticket) × (find (has_id 20) (serve morning desk).stored.tickets ≡ some t')
    × Continues printer_ticket t'
unfolding find
serve-Continues_example = serve-Continues printer_ticket morning desk desk-HasKeys refl

serve-SameRows_example : SameRows 2 desk.stored (serve morning desk).stored
serve-SameRows_example =
    serve-SameRows 2 morning desk
      ((λ e. ground arith), ((λ e. ground arith), ((λ e. ground arith), ((λ e. ground arith), tt))))
      desk-HasKeys

serve-IsSound_example : IsSound (serve morning desk).stored (serve morning desk).next_id
serve-IsSound_example = serve-IsSound morning desk desk-IsSound

desk-InOrder : InOrder 600 desk.stored
desk-InOrder = record { assignments = tt; events = tt; old_assignments = tt; old_events = tt }

morning-AfterEach : AfterEach 600 morning
morning-AfterEach = (omega arith, (omega arith, (omega arith, (omega arith, tt))))

serve-HasHistory_example : HasHistory (serve morning desk).stored (serve morning desk).next_id
serve-HasHistory_example =
    serve-HasHistory morning 600 desk desk-HasKeys desk-InOrder morning-AfterEach desk-HasHistory

serve-PairsUnique_example : PairsUnique (serve morning desk).stored.ticket_tags
serve-PairsUnique_example = serve-PairsUnique morning desk tt

require_permission_example :
    ((m : WorkspaceMembership)
      → (require_permission tickets_update 1 3 desk ≡ (ok m, desk))
        ↔ ((get_membership 1 3 desk_db ≡ some m) × IsGranted tickets_update m.role_id desk_db))
    × (((m : WorkspaceMembership)
          → ¬ ((get_membership 1 3 desk_db ≡ some m) × IsGranted tickets_update m.role_id desk_db))
        → require_permission tickets_update 1 3 desk
          ≡ (err (not_found "Workspace not found"), desk))
require_permission_example = require_permission_lem tickets_update 1 3 desk

materialize_workspace_slas_example : Materialized 1 desk (materialize_workspace_slas 1 desk)
materialize_workspace_slas_example = materialize_workspace_slas-Materialized 1 desk

-- A visit before the warning window, one in it, and one after the due instant.
abbrev visits : List Visit
visits =
    record { now = 100; warning_delta = 300; first_outbound = none; resolved = none }
    ∷ record { now = 800; warning_delta = 300; first_outbound = none; resolved = none }
    ∷ record { now = 1100; warning_delta = 300; first_outbound = none; resolved = none }
    ∷ []

visit_example :
    (responses is_warned visits running_clock ≤ 1)
    × (responses is_breached visits running_clock ≤ 1)
    × (resolutions is_warned visits running_clock ≤ 1)
    × (resolutions is_breached visits running_clock ≤ 1)
visit_example = visit-AtMostOnce visits running_clock

check_response_example :
    ((check_response 1100 300 running_clock).0 ≡ Outcome.breached)
    × ((check_response 1200 300 (check_response 1100 300 running_clock).1).0 ≡ Outcome.warned)
check_response_example =
    check_response-late_warning running_clock 1100 1200 300 refl refl refl (omega arith)
      (omega arith)

set_task_status_example :
    Answer 600 (get_task 1 30 desk.stored) TaskStatus.done (asked 1 30 3 desk TaskStatus.done).0
    × Stores 1 desk (asked 1 30 3 desk TaskStatus.done)
set_task_status_example = set_task_status-Answer 1 30 3 TaskStatus.done desk

update_client_example :
    Updates 1 10 deactivation desk (request (update_client 1 3 10 deactivation) desk)
update_client_example = update_client-Updates 1 3 10 deactivation desk

delete_contact_example : Deletes 1 10 11 desk (request (delete_contact 1 3 10 11) desk)
delete_contact_example = delete_contact-Deletes 1 3 10 11 desk

is_transition_allowed_example :
    (is_transition_allowed TicketStatus.resolved TicketStatus.closed ≡ true) ↔ (
      (TicketStatus.resolved ≢ TicketStatus.closed)
      × (TicketStatus.closed ≢ TicketStatus.new)
      × (TicketStatus.resolved ≡ TicketStatus.closed → TicketStatus.closed ≡ TicketStatus.opened)
      × (TicketStatus.resolved ≡ TicketStatus.resolved
          → (TicketStatus.closed ≡ TicketStatus.opened)
            ⊎ (TicketStatus.closed ≡ TicketStatus.closed))
      × (TicketStatus.resolved ≡ TicketStatus.new
          → ¬ (IsWaiting TicketStatus.closed ⊎ (TicketStatus.closed ≡ TicketStatus.resolved)))
      × ¬ (IsWaiting TicketStatus.resolved × IsWaiting TicketStatus.closed))
is_transition_allowed_example = is_transition_allowed_iff TicketStatus.resolved TicketStatus.closed

StatusPath_example :
    StatusPath TicketStatus.closed TicketStatus.resolved
    ↔ (TicketStatus.resolved ≡ TicketStatus.new → TicketStatus.closed ≡ TicketStatus.new)
StatusPath_example = StatusPath-iff TicketStatus.closed TicketStatus.resolved

abbrev no_counts : Counters
no_counts = record { evaluated = 0; warnings = 0; breaches = 0 }

late_clock : get_ticket_sla 1 20 late_db ≡ some running_clock
unfolding get_ticket_sla find
late_clock = refl

late_policy : get_policy_by_id 61 late_db ≡ some medium_policy
unfolding get_policy_by_id find
late_policy = refl

evaluate_ticket_example :
    Visited printer_ticket medium_policy running_clock no_counts late_desk
      (evaluate_ticket no_counts (some printer_ticket) late_desk)
evaluate_ticket_example =
    evaluate_ticket-Visited printer_ticket medium_policy running_clock no_counts late_desk
      late_clock late_policy

abbrev next_pair : TokenPair
next_pair = record { access_token = "access"; refresh_token = "next" }

abbrev late_logout : List AuthRequest
late_logout =
    record { at = 800; call = AuthCall.logout "next" }
    ∷ record { at = 900; call = AuthCall.browser_refresh (some "first") }
    ∷ []

first_refresh : (request (refresh_route plain_security "first") signed_in).0 ≡ ok next_pair
unfolding request refresh_route refresh_service get_by_token_hash get_by_id is_active revoke
    issue_token_pair create_session record_event find any modify_where
first_refresh = refl

refresh_once_example :
    (request (refresh_route plain_security "first") (
      serve_auth plain_security true late_logout
        (request (refresh_route plain_security "first") signed_in).1)).0
    ≡ err (authentication "Invalid or expired refresh token")
refresh_once_example =
    refresh_once plain_security "first" true late_logout signed_in next_pair first_refresh
