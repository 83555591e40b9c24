-- ===== src/Operations/Coverage.antt =====
-- The clocks that `materialize_workspace_slas` attaches.
use support_endpoint.Prelude.{
  ℕ, ◌≡◌, refl, sym, ◌∙◌, Bool, not, ◌&&◌, some, List, [], ◌∷◌, arith, inl, inr, Option-cases,
  Bool-cases, find, find-append, find-append_some, select, any, any-append, subst, All-map, push,
  ◌==◌, All,
}
use support_endpoint.Models.{Ticket, TicketSla}
use support_endpoint.Session.{Session, Result, ok, err, ◌>>◌}
use support_endpoint.Operations.Repo.{get_ticket_sla, tickets_without_sla}
use support_endpoint.Operations.Service.{attach_sla, attach_each, materialize_workspace_slas}
use support_endpoint.Operations.Attach.{
  clock_of, HasClock, attached, Attachable, attach_sla-Attached, Attached,
}

-- What attaching clocks to tickets has done when it returns: each of them has one, the old clocks
-- are still there, and nothing else that matters here has changed. It does not raise.
abbrev Covers : List Ticket → Session → Result (Unit {0}) × Session → Type 0
Covers ts s (ok u, s') =
    All (λ (t : Ticket). HasClock s'.work.slas t.id) ts
    × ((i : ℕ) → HasClock s.work.slas i → HasClock s'.work.slas i)
    × (s'.work.tickets ≡ s.work.tickets)
    × (s'.stored ≡ s.stored)
Covers ts s (err e, s') = ⊥

-- A clock that a workspace finds is a clock.
found-HasClock :
    (t : Ticket) (item : TicketSla) (slas : List TicketSla)
    → find (λ (s : TicketSla). s.workspace_id == t.workspace_id && s.ticket_id == t.id) slas
      ≡ some item
    → HasClock slas t.id
unfolding find any
found-HasClock t item [] h = cc
found-HasClock t item (x ∷ xs) h = ground (arith, found-HasClock t item xs)

-- A new clock leaves the other tickets of the workspace attachable.
Attachable-push :
    (t u : Ticket) (row : TicketSla) (slas : List TicketSla)
    → row.workspace_id ≡ t.workspace_id
    → row.ticket_id ≡ t.id
    → u.workspace_id ≡ t.workspace_id
    → Attachable slas u
    → Attachable (push row slas) u
unfolding find any
Attachable-push t u row slas a b c h k = elim (Bool-cases (any (clock_of u.id) slas)) [
  | inl old ↦ (_, find-append_some _ slas (row ∷ []) _ (h old).1)
  | inr none_yet ↦
      elim (Option-cases
        (find (λ (s : TicketSla). s.workspace_id == u.workspace_id && s.ticket_id == u.id) slas)) [
          | inl e ↦ (
            row,
            ground (
              arith,
              k,
              any-append (clock_of u.id) slas (row ∷ []),
              find-append
                  (λ (s : TicketSla). s.workspace_id == u.workspace_id && s.ticket_id == u.id) slas
                  (row ∷ []),
            ),
          )
          | inr (item, e) ↦ (item, find-append_some _ slas (row ∷ []) _ e)
        ]
]

HasClock-push :
    (row : TicketSla) (slas : List TicketSla) (i : ℕ) → HasClock slas i → HasClock (push row slas) i
HasClock-push row slas i h = ground (arith, any-append (clock_of i) slas (row ∷ []))

HasClock-new : (row : TicketSla) (slas : List TicketSla) → HasClock (push row slas) row.ticket_id
unfolding any
HasClock-new row slas = ground (arith, any-append (clock_of row.ticket_id) slas (row ∷ []))

-- What is known of a ticket that is still to be visited.
abbrev Awaits : ℕ → List TicketSla → Ticket → Type 0
Awaits w slas t = (t.workspace_id ≡ w) × Attachable slas t

-- A first ticket that has its clock, and the rest of the loop.
Covers-first :
    (t : Ticket) (ts : List Ticket) (s s' : Session) (r : Result (Unit {0}) × Session)
    → HasClock s'.work.slas t.id
    → ((i : ℕ) → HasClock s.work.slas i → HasClock s'.work.slas i)
    → s'.work.tickets ≡ s.work.tickets
    → s'.stored ≡ s.stored
    → Covers ts s' r
    → Covers (t ∷ ts) s r
Covers-first t ts s s' (ok u, s'') c keeps a b h =
    ((h.1 t.id c, h.0), λ i k. h.1 i (keeps i k), h.2 ∙ a, h.3 ∙ b)
Covers-first t ts s s' (err e, s'') c keeps a b h = elim h [ ]

attach_rest :
    (w : ℕ) (t : Ticket) (ts : List Ticket) (s : Session) (r : Result (Unit {0}) × Session)
    → t.workspace_id ≡ w
    → All (Awaits w s.work.slas) ts
    → ((s' : Session) → All (Awaits w s'.work.slas) ts → Covers ts s' (attach_each ts s'))
    → Attached t s r
    → Covers (t ∷ ts) s (((λ _. r) >> attach_each ts) s)
unfolding get_ticket_sla
attach_rest w t ts s r a h next (Attached.had item e) =
    Covers-first t ts s s _ (found-HasClock t item s.work.slas e) (λ i k. k) refl refl (next s h)
attach_rest w t ts s r a h next (Attached.has_new row ps n b c) =
    let awaits =
      All-map ts (λ u k. (k.0, Attachable-push t u row s.work.slas b c (k.0 ∙ sym a) k.1)) h in
    let s' = attached row ps n s in
    Covers-first t ts s s' (attach_each ts s')
      (subst (HasClock (push row s.work.slas)) c (HasClock-new row s.work.slas))
      (λ i k. HasClock-push row s.work.slas i k) refl refl (next s' awaits)

attach_each-Covers :
    (w : ℕ) (ts : List Ticket) (s : Session)
    → All (Awaits w s.work.slas) ts
    → Covers ts s (attach_each ts s)
unfolding attach_each
attach_each-Covers w [] s h = (tt, λ i k. k, refl, refl)
attach_each-Covers w (t ∷ ts) s h =
    attach_rest w t ts s (attach_sla t s) h.0.0 h.1 (attach_each-Covers w ts)
      (attach_sla-Attached t s h.0.1)

-- The tickets of `tickets_without_sla`, and the others.
is_bare : ℕ → List TicketSla → Ticket → Bool
is_bare w slas t = t.workspace_id == w && not (any (λ (s : TicketSla). s.ticket_id == t.id) slas)

select-Awaits :
    (w : ℕ) (slas : List TicketSla) (ts : List Ticket)
    → All (Awaits w slas) (select (is_bare w slas) ts)
unfolding select is_bare
select-Awaits w slas [] = tt
select-Awaits w slas (t ∷ ts) = elim (Bool-cases (is_bare w slas t)) [
  | inl e ↦ rw e ((ground arith, λ k. ground arith), select-Awaits w slas ts)
  | inr e ↦ rw e (select-Awaits w slas ts)
]

All-HasClock :
    (w : ℕ) (slas slas' : List TicketSla) (ts : List Ticket)
    → ((i : ℕ) → HasClock slas i → HasClock slas' i)
    → All (λ (t : Ticket). HasClock slas' t.id) (select (is_bare w slas) ts)
    → All (λ (t : Ticket). t.workspace_id ≡ w → HasClock slas' t.id) ts
unfolding select is_bare
All-HasClock w slas slas' [] keeps h = tt
All-HasClock w slas slas' (t ∷ ts) keeps h = elim (Bool-cases (is_bare w slas t)) [
  | inl e ↦ let k = rw e at h in (λ _. k.0, All-HasClock w slas slas' ts keeps k.1)
  | inr e ↦ (λ a. keeps t.id (ground arith), All-HasClock w slas slas' ts keeps (rw e at h))
]

-- How `materialize_workspace_slas` ends: it does not raise, and then every ticket of the workspace
-- has a clock.
abbrev pub Materialized : ℕ → Session → Result (Unit {0}) × Session → Type 0
Materialized w s (ok u, s') =
    All (λ (t : Ticket). t.workspace_id ≡ w → HasClock s'.work.slas t.id) s'.work.tickets
    × ((i : ℕ) → HasClock s.work.slas i → HasClock s'.work.slas i)
    × (s'.work.tickets ≡ s.work.tickets)
Materialized w s (err e, s') = ⊥

Covers-Materialized :
    (w : ℕ) (s : Session) (r : Result (Unit {0}) × Session)
    → Covers (tickets_without_sla w s.work) s r
    → Materialized w s r
unfolding tickets_without_sla is_bare
Covers-Materialized w s (ok u, s') h = (
  subst (λ ts. All (λ (t : Ticket). t.workspace_id ≡ w → HasClock s'.work.slas t.id) ts) (sym h.2)
      (All-HasClock w s.work.slas s'.work.slas s.work.tickets h.1 h.0),
  h.1,
  h.2,
)
Covers-Materialized w s (err e, s') h = elim h [ ]

-- In any session, `materialize_workspace_slas` returns without an error, in particular without a
-- violation of the constraint of one clock for a ticket; then every ticket of the workspace has a
-- clock, the clocks there were are still there, and the tickets are the same.
pub materialize_workspace_slas-Materialized :
    (w : ℕ) (s : Session) → Materialized w s (materialize_workspace_slas w s)
unfolding materialize_workspace_slas tickets_without_sla is_bare
materialize_workspace_slas-Materialized w s =
    Covers-Materialized w s _
      (attach_each-Covers w _ s (select-Awaits w s.work.slas s.work.tickets))
