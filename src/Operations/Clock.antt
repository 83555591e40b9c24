-- ===== src/Operations/Clock.antt =====
-- The SLA clock of a ticket: the decisions that services/operations_service.py takes on one
-- clock's columns. Instants count microseconds; a stored datetime is always in UTC here, so that
-- `_utc` does nothing.
use support_endpoint.Prelude.{
  ℕ, ◌+◌, ◌*◌, Bool, true, false, not, ◌&&◌, Option, none, some, List, [], ◌∷◌, str_eq, is_none,
  if◌then◌else◌, leb, ltb,
}
use support_endpoint.Models.{TicketStatus, TicketPriority, TicketSla, AuditEvent, Meta}
use support_endpoint.Operations.Repo.{metadata_get}

-- `timedelta(minutes=n)`
abbrev pub minutes : ℕ → ℕ
minutes n = n * 60000000

-- `_DEFAULT_SLA`: the minutes to the first response, to the resolution, and of the warning.
unfoldable pub default_sla : TicketPriority → ℕ × ℕ × ℕ
default_sla TicketPriority.low = (240, 2880, 60)
default_sla TicketPriority.medium = (120, 1440, 30)
default_sla TicketPriority.high = (60, 480, 15)
default_sla TicketPriority.urgent = (15, 240, 5)

-- `if item.first_response_at is None:` … in `_refresh_sla_from_history`
unfoldable pub note_response : Option ℕ → TicketSla → TicketSla
note_response none item = item
note_response (some t) item =
    if is_none item.first_response_at
    then record item {
      first_response_at = some t;
      first_response_breached = ltb item.first_response_due_at t;
    }
    else item

-- `metadata.get("to") in {"resolved", "closed"}`
unfoldable pub is_final : Option Meta → Bool
is_final (some (Meta.status TicketStatus.resolved)) = true
is_final (some (Meta.status TicketStatus.closed)) = true
is_final (some (Meta.text name)) = if str_eq name "resolved" then true else str_eq name "closed"
is_final _ = false

-- The instant of the first event of the loop that is taken.
unfoldable pub resolved_event : List AuditEvent → Option ℕ
unfolding is_final
resolved_event [] = none
resolved_event (event ∷ events) =
    if is_final (metadata_get "to" event.metadata)
    then some event.created_at
    else resolved_event events

-- `if item.resolved_at is None:` … in `_refresh_sla_from_history`
unfoldable pub note_resolution : Option ℕ → TicketSla → TicketSla
note_resolution none item = item
note_resolution (some t) item =
    if is_none item.resolved_at
    then record item { resolved_at = some t; resolution_breached = ltb item.resolution_due_at t }
    else item

-- What an evaluation finds on one of a clock's two targets.
pub data Outcome : Type 0 where
  quiet warned breached : Outcome

-- `if item.first_response_at is None:` … in `evaluate_sla`
unfoldable pub check_response : ℕ → ℕ → TicketSla → Outcome × TicketSla
check_response now warning_delta item =
    if not (is_none item.first_response_at)
    then (Outcome.quiet, item)
    else if leb item.first_response_due_at now && not item.first_response_breached
    then (Outcome.breached, record item { first_response_breached = true })
    else if leb item.first_response_due_at (now + warning_delta)
        && not item.first_response_warning_sent
    then (Outcome.warned, record item { first_response_warning_sent = true })
    else (Outcome.quiet, item)

-- `if item.resolved_at is None:` … in `evaluate_sla`
unfoldable pub check_resolution : ℕ → ℕ → TicketSla → Outcome × TicketSla
check_resolution now warning_delta item =
    if not (is_none item.resolved_at)
    then (Outcome.quiet, item)
    else if leb item.resolution_due_at now && not item.resolution_breached
    then (Outcome.breached, record item { resolution_breached = true })
    else if leb item.resolution_due_at (now + warning_delta) && not item.resolution_warning_sent
    then (Outcome.warned, record item { resolution_warning_sent = true })
    else (Outcome.quiet, item)
