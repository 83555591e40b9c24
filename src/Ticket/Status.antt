-- ===== src/Ticket/Status.antt =====
-- models/ticket_enums.py: the state machine of a ticket.
use support_endpoint.Prelude.{Bool, false, List, [], ◌∷◌, any, if◌then◌else◌}
use support_endpoint.Models.{TicketStatus, status_eq}

-- ALLOWED_TRANSITIONS
unfoldable pub allowed_transitions : TicketStatus → List TicketStatus
allowed_transitions TicketStatus.new =
    TicketStatus.opened ∷ TicketStatus.in_progress ∷ TicketStatus.closed ∷ []
allowed_transitions TicketStatus.opened =
    TicketStatus.in_progress ∷ TicketStatus.waiting_customer ∷ TicketStatus.waiting_internal
    ∷ TicketStatus.resolved ∷ TicketStatus.closed ∷ []
allowed_transitions TicketStatus.in_progress =
    TicketStatus.opened ∷ TicketStatus.waiting_customer ∷ TicketStatus.waiting_internal
    ∷ TicketStatus.resolved ∷ TicketStatus.closed ∷ []
allowed_transitions TicketStatus.waiting_customer =
    TicketStatus.in_progress ∷ TicketStatus.opened ∷ TicketStatus.resolved ∷ TicketStatus.closed
    ∷ []
allowed_transitions TicketStatus.waiting_internal =
    TicketStatus.in_progress ∷ TicketStatus.opened ∷ TicketStatus.resolved ∷ TicketStatus.closed
    ∷ []
allowed_transitions TicketStatus.resolved = TicketStatus.opened ∷ TicketStatus.closed ∷ []
allowed_transitions TicketStatus.closed = TicketStatus.opened ∷ []

unfoldable pub is_transition_allowed : TicketStatus → TicketStatus → Bool
unfolding allowed_transitions status_eq any
is_transition_allowed current target =
    if status_eq current target then false else any (status_eq target) (allowed_transitions current)
