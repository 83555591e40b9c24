-- ===== src/Operations/Alerts.antt =====
-- How often the evaluations of a ticket's SLA clock raise an alert.
use support_endpoint.Prelude.{
  ℕ, ◌+◌, ◌≤◌, ◌≡◌, Bool, false, Option, none, some, List, [], ◌∷◌, arith,
}
use support_endpoint.Models.{TicketSla}
use support_endpoint.Operations.Clock.{
  note_response, note_resolution, Outcome, check_response, check_resolution,
}

-- One visit of a clock by `evaluate_sla`: the instant, the policy's warning window, and what the
-- history says of the first response and of the resolution.
pub record Visit : Type 0 where
  pub now : ℕ
  pub warning_delta : ℕ
  pub first_outbound : Option ℕ
  pub resolved : Option ℕ

-- The clock after `_refresh_sla_from_history`.
abbrev pub refreshed : Visit → TicketSla → TicketSla
refreshed v item = note_resolution v.resolved (note_response v.first_outbound item)

-- The two outcomes of a visit, and the clock after it.
abbrev pub visit : Visit → TicketSla → (Outcome × Outcome) × TicketSla
visit v item =
    let first = check_response v.now v.warning_delta (refreshed v item) in
    let second = check_resolution v.now v.warning_delta first.1 in ((first.0, second.0), second.1)

abbrev pub is_warned : Outcome → ℕ
is_warned Outcome.quiet = 0
is_warned Outcome.warned = 1
is_warned Outcome.breached = 0

abbrev pub is_breached : Outcome → ℕ
is_breached Outcome.quiet = 0
is_breached Outcome.warned = 0
is_breached Outcome.breached = 1

-- How many of the visits' outcomes on the first response, and on the resolution, count.
abbrev pub responses : (Outcome → ℕ) → List Visit → TicketSla → ℕ
responses weight [] item = 0
responses weight (v ∷ vs) item = weight (visit v item).0.0 + responses weight vs (visit v item).1

abbrev pub resolutions : (Outcome → ℕ) → List Visit → TicketSla → ℕ
resolutions weight [] item = 0
resolutions weight (v ∷ vs) item =
    weight (visit v item).0.1 + resolutions weight vs (visit v item).1

-- Whether an alert on a target may still come: the target is open, and its flag is not set.
unfoldable may_come : Option ℕ → Bool → ℕ
may_come none false = 1
may_come _ _ = 0

abbrev response_warning : TicketSla → ℕ
response_warning item = may_come item.first_response_at item.first_response_warning_sent

abbrev response_breach : TicketSla → ℕ
response_breach item = may_come item.first_response_at item.first_response_breached

abbrev resolution_warning : TicketSla → ℕ
resolution_warning item = may_come item.resolved_at item.resolution_warning_sent

abbrev resolution_breach : TicketSla → ℕ
resolution_breach item = may_come item.resolved_at item.resolution_breached

-- From one clock to the next, an alert that comes is one that might come, and no longer may.
abbrev Spends : Outcome → Outcome → TicketSla → TicketSla → Type 0
Spends first second item next =
    (is_warned first + response_warning next ≤ response_warning item)
    × (is_breached first + response_breach next ≤ response_breach item)
    × (is_warned second + resolution_warning next ≤ resolution_warning item)
    × (is_breached second + resolution_breach next ≤ resolution_breach item)

note_response-Spends :
    (o : Option ℕ) (item : TicketSla)
    → Spends Outcome.quiet Outcome.quiet item (note_response o item)
unfolding note_response may_come
note_response-Spends none item = ground arith
note_response-Spends (some t) item = ground arith

note_resolution-Spends :
    (o : Option ℕ) (item : TicketSla)
    → Spends Outcome.quiet Outcome.quiet item (note_resolution o item)
unfolding note_resolution may_come
note_resolution-Spends none item = ground arith
note_resolution-Spends (some t) item = ground arith

check_response-Spends :
    (now delta : ℕ) (item : TicketSla)
    → Spends (check_response now delta item).0 Outcome.quiet item (check_response now delta item).1
unfolding check_response may_come
check_response-Spends now delta item = ground arith

check_resolution-Spends :
    (now delta : ℕ) (item : TicketSla)
    → Spends Outcome.quiet
        (check_resolution now delta item).0
        item
        (check_resolution now delta item).1
unfolding check_resolution may_come
check_resolution-Spends now delta item = ground arith

visit-Spends :
    (v : Visit) (item : TicketSla)
    → Spends (visit v item).0.0 (visit v item).0.1 item (visit v item).1
unfolding may_come
visit-Spends v item =
    let responded = note_response v.first_outbound item in
    let noted = note_resolution v.resolved responded in
    let first = check_response v.now v.warning_delta noted in
    let (a1, a2, a3, a4) = note_response-Spends v.first_outbound item in
    let (b1, b2, b3, b4) = note_resolution-Spends v.resolved responded in
    let (c1, c2, c3, c4) = check_response-Spends v.now v.warning_delta noted in
    let (d1, d2, d3, d4) = check_resolution-Spends v.now v.warning_delta first.1 in
    (omega arith, omega arith, omega arith, omega arith)

responses_warned_lem :
    (vs : List Visit) (item : TicketSla) → responses is_warned vs item ≤ response_warning item
unfolding may_come
responses_warned_lem [] item = omega arith
responses_warned_lem (v ∷ vs) item =
    omega (arith, (visit-Spends v item).0, responses_warned_lem vs (visit v item).1)

responses_breached_lem :
    (vs : List Visit) (item : TicketSla) → responses is_breached vs item ≤ response_breach item
unfolding may_come
responses_breached_lem [] item = omega arith
responses_breached_lem (v ∷ vs) item =
    omega (arith, (visit-Spends v item).1, responses_breached_lem vs (visit v item).1)

resolutions_warned_lem :
    (vs : List Visit) (item : TicketSla) → resolutions is_warned vs item ≤ resolution_warning item
unfolding may_come
resolutions_warned_lem [] item = omega arith
resolutions_warned_lem (v ∷ vs) item =
    omega (arith, (visit-Spends v item).2, resolutions_warned_lem vs (visit v item).1)

resolutions_breached_lem :
    (vs : List Visit) (item : TicketSla) → resolutions is_breached vs item ≤ resolution_breach item
unfolding may_come
resolutions_breached_lem [] item = omega arith
resolutions_breached_lem (v ∷ vs) item =
    omega (arith, (visit-Spends v item).3, resolutions_breached_lem vs (visit v item).1)

may_come_le : (o : Option ℕ) (b : Bool) → may_come o b ≤ 1
unfolding may_come
may_come_le o b = ground arith

-- However often a clock is visited, at whatever instants and with whatever policies and histories,
-- each of its two targets gives at most one warning and at most one breach.
pub visit-AtMostOnce :
    (vs : List Visit) (item : TicketSla)
    → (responses is_warned vs item ≤ 1)
      × (responses is_breached vs item ≤ 1)
      × (resolutions is_warned vs item ≤ 1)
      × (resolutions is_breached vs item ≤ 1)
visit-AtMostOnce vs item = (
  omega (
    arith,
    responses_warned_lem vs item,
    may_come_le item.first_response_at item.first_response_warning_sent,
  ),
  omega (
    arith,
    responses_breached_lem vs item,
    may_come_le item.first_response_at item.first_response_breached,
  ),
  omega (
    arith,
    resolutions_warned_lem vs item,
    may_come_le item.resolved_at item.resolution_warning_sent,
  ),
  omega (
    arith,
    resolutions_breached_lem vs item,
    may_come_le item.resolved_at item.resolution_breached,
  ),
)

-- A clock that no response has reached, with no alert given, gives a breach when it is evaluated
-- after its due instant, and at any later evaluation a warning that the target approaches.
pub check_response-late_warning :
    (item : TicketSla) (now later warning_delta : ℕ)
    → item.first_response_at ≡ none
    → item.first_response_breached ≡ false
    → item.first_response_warning_sent ≡ false
    → item.first_response_due_at ≤ now
    → now ≤ later
    → ((check_response now warning_delta item).0 ≡ Outcome.breached)
      × ((check_response later warning_delta (check_response now warning_delta item).1).0
          ≡ Outcome.warned)
unfolding check_response
check_response-late_warning item now later warning_delta unanswered clean unsent due after =
    ground arith
