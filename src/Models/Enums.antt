-- ===== src/Models/Enums.antt =====
-- The enumerations: models/ticket_enums.py, and those of models/operations.py and
-- models/communication.py. `OPEN` is spelled `opened` here.
use support_endpoint.Prelude.{◌≡◌, ◌↔◌, Bool, true, false, arith}

pub data TicketStatus : Type 0 where
  new opened in_progress waiting_customer waiting_internal resolved closed : TicketStatus

pub data TicketPriority : Type 0 where
  low medium high urgent : TicketPriority

pub data TaskStatus : Type 0 where
  opened done cancelled : TaskStatus

pub data NotificationType : Type 0 where
  task_assigned sla_warning sla_breached ticket_assigned : NotificationType

pub data ConversationChannel : Type 0 where
  web email chat phone api : ConversationChannel

pub data MessageDirection : Type 0 where
  inbound outbound : MessageDirection

-- `==` on the members of an enumeration.
unfoldable pub status_eq : TicketStatus → TicketStatus → Bool
status_eq TicketStatus.new TicketStatus.new = true
status_eq TicketStatus.opened TicketStatus.opened = true
status_eq TicketStatus.in_progress TicketStatus.in_progress = true
status_eq TicketStatus.waiting_customer TicketStatus.waiting_customer = true
status_eq TicketStatus.waiting_internal TicketStatus.waiting_internal = true
status_eq TicketStatus.resolved TicketStatus.resolved = true
status_eq TicketStatus.closed TicketStatus.closed = true
status_eq _ _ = false

unfoldable pub priority_eq : TicketPriority → TicketPriority → Bool
priority_eq TicketPriority.low TicketPriority.low = true
priority_eq TicketPriority.medium TicketPriority.medium = true
priority_eq TicketPriority.high TicketPriority.high = true
priority_eq TicketPriority.urgent TicketPriority.urgent = true
priority_eq _ _ = false

unfoldable pub task_status_eq : TaskStatus → TaskStatus → Bool
task_status_eq TaskStatus.opened TaskStatus.opened = true
task_status_eq TaskStatus.done TaskStatus.done = true
task_status_eq TaskStatus.cancelled TaskStatus.cancelled = true
task_status_eq _ _ = false

unfoldable pub channel_eq : ConversationChannel → ConversationChannel → Bool
channel_eq ConversationChannel.web ConversationChannel.web = true
channel_eq ConversationChannel.email ConversationChannel.email = true
channel_eq ConversationChannel.chat ConversationChannel.chat = true
channel_eq ConversationChannel.phone ConversationChannel.phone = true
channel_eq ConversationChannel.api ConversationChannel.api = true
channel_eq _ _ = false

unfoldable pub direction_eq : MessageDirection → MessageDirection → Bool
direction_eq MessageDirection.inbound MessageDirection.inbound = true
direction_eq MessageDirection.outbound MessageDirection.outbound = true
direction_eq _ _ = false

pub status_eq_iff : (a b : TicketStatus) → (status_eq a b ≡ true) ↔ (a ≡ b)
unfolding status_eq
status_eq_iff a b = ground arith

pub priority_eq_iff : (a b : TicketPriority) → (priority_eq a b ≡ true) ↔ (a ≡ b)
unfolding priority_eq
priority_eq_iff a b = ground arith
