-- ===== src/Ticket/Graph.antt =====
-- The graph of ALLOWED_TRANSITIONS: its edges, and what is reachable along them.
use support_endpoint.Prelude.{◌≡◌, ◌≢◌, ◌↔◌, refl, true, ◌⊎◌, arith, sym, subst}
use support_endpoint.Models.{TicketStatus}
use support_endpoint.Ticket.Status.{is_transition_allowed}

-- A sequence of allowed transitions.
pub data StatusPath (a : TicketStatus) : TicketStatus → Type 0 where
  stay : StatusPath a a
  move : {b c : TicketStatus} → StatusPath a b → is_transition_allowed b c ≡ true → StatusPath a c

pub StatusPath-trans : {a b c : TicketStatus} → StatusPath a b → StatusPath b c → StatusPath a c
StatusPath-trans p stay = p
StatusPath-trans p (move q h) = move (StatusPath-trans p q) h

-- A ticket that waits for someone.
abbrev pub IsWaiting : TicketStatus → Type 0
IsWaiting s = (s ≡ TicketStatus.waiting_customer) ⊎ (s ≡ TicketStatus.waiting_internal)

-- A move that the rules for tickets allow, in words: the status changes, and not to new; a closed
-- ticket is only opened, a resolved one only opened or closed; a new one is not made to wait and not
-- resolved; and a ticket that waits for someone is not made to wait for someone else.
abbrev pub MayMove : TicketStatus → TicketStatus → Type 0
MayMove a b =
    (a ≢ b)
    × (b ≢ TicketStatus.new)
    × (a ≡ TicketStatus.closed → b ≡ TicketStatus.opened)
    × (a ≡ TicketStatus.resolved → (b ≡ TicketStatus.opened) ⊎ (b ≡ TicketStatus.closed))
    × (a ≡ TicketStatus.new → ¬ (IsWaiting b ⊎ (b ≡ TicketStatus.resolved)))
    × ¬ (IsWaiting a × IsWaiting b)

-- A transition is allowed exactly if it changes the status, does not make the ticket new, only
-- reopens a closed ticket, only reopens or closes a resolved one, does not make a new one wait
-- or resolved, and does not go from one kind of waiting to the other.
pub is_transition_allowed_iff :
    (a b : TicketStatus)
    → (is_transition_allowed a b ≡ true) ↔ (
        (a ≢ b)
        × (b ≢ TicketStatus.new)
        × (a ≡ TicketStatus.closed → b ≡ TicketStatus.opened)
        × (a ≡ TicketStatus.resolved → (b ≡ TicketStatus.opened) ⊎ (b ≡ TicketStatus.closed))
        × (a ≡ TicketStatus.new → ¬ (IsWaiting b ⊎ (b ≡ TicketStatus.resolved)))
        × ¬ (IsWaiting a × IsWaiting b))
unfolding is_transition_allowed
is_transition_allowed_iff a b = ground arith

to_opened : (a : TicketStatus) → StatusPath a TicketStatus.opened
unfolding is_transition_allowed
to_opened TicketStatus.opened = stay
to_opened _ = move stay refl

from_opened : (b : TicketStatus) → b ≢ TicketStatus.new → StatusPath TicketStatus.opened b
unfolding is_transition_allowed
from_opened TicketStatus.new h = absurd (h refl)
from_opened TicketStatus.opened h = stay
from_opened _ h = move stay refl

never_new : {a b : TicketStatus} → StatusPath a b → b ≡ TicketStatus.new → a ≡ TicketStatus.new
never_new stay e = e
never_new (move {b} {c} p h) e = absurd (((is_transition_allowed_iff b c).0 h).1 e)

-- Every status but `new` is reachable from every status, `closed` and `resolved` included, and
-- `new` is reachable from itself only.
pub StatusPath-iff :
    (a b : TicketStatus) → StatusPath a b ↔ (b ≡ TicketStatus.new → a ≡ TicketStatus.new)
StatusPath-iff a TicketStatus.new =
    (never_new, λ h. subst (λ x. StatusPath x TicketStatus.new) (sym (h refl)) stay)
StatusPath-iff a b = (never_new, λ h. StatusPath-trans (to_opened a) (from_opened b (λ e. cc)))
