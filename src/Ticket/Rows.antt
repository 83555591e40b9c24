-- ===== src/Ticket/Rows.antt =====
-- The lookup of a ticket in a workspace, before and after a change of the row that it found.
use support_endpoint.Prelude.{
  ℕ, ◌≡◌, refl, Bool, Option, some, List, [], ◌∷◌, arith, find, modify_where, find-append,
  find_sound, find-modify_where, push, ◌==◌, ◌&&◌, Option-cases, inl, inr,
}
use support_endpoint.Models.{Ticket, TicketStatus}
use support_endpoint.Ticket.Service.{TicketUpdateRequest, revise}

-- `Ticket.id == ticket_id, Ticket.workspace_id == workspace_id`
abbrev pub is_row : ℕ → ℕ → Ticket → Bool
is_row w i t = t.id == i && t.workspace_id == w

abbrev pub has_id : ℕ → Ticket → Bool
has_id i t = t.id == i

-- An assignment to attributes other than the id and the workspace.
pub record KeepsKey (f : Ticket → Ticket) : Type 0 where
  pub id : (t : Ticket) → (f t).id ≡ t.id
  pub workspace_id : (t : Ticket) → (f t).workspace_id ≡ t.workspace_id

pub status-KeepsKey : (target : TicketStatus) → KeepsKey (λ t. record t { status = target })
status-KeepsKey target = record { id = λ t. refl; workspace_id = λ t. refl }

pub assignee-KeepsKey : (user : Option ℕ) → KeepsKey (λ t. record t { assignee_user_id = user })
assignee-KeepsKey user = record { id = λ t. refl; workspace_id = λ t. refl }

pub revise-KeepsKey : (p : TicketUpdateRequest) → KeepsKey (revise p)
revise-KeepsKey p = record { id = λ t. refl; workspace_id = λ t. refl }

module _ (w i : ℕ) (t : Ticket) where
  pub is_row-found :
      (xs : List Ticket) → find (is_row w i) xs ≡ some t → (t.id ≡ i) × (t.workspace_id ≡ w)
  is_row-found xs h = ground (arith, find_sound (is_row w i) xs t h)

  pub find_self :
      (xs : List Ticket) → find (is_row w i) xs ≡ some t → find (is_row w t.id) xs ≡ some t
  find_self xs h = ground (arith, is_row-found xs h)

  pub find-changed :
      (f : Ticket → Ticket) (xs : List Ticket)
      → KeepsKey f
      → find (is_row w i) xs ≡ some t
      → find (is_row w t.id) (modify_where (has_id t.id) f xs) ≡ some (f t)
  find-changed f xs k h = ground (
    arith,
    find_self xs h,
    find-modify_where (is_row w t.id) (has_id t.id) f xs
        (λ x. ground (arith, k.id x, k.workspace_id x)),
  )

-- A row that was added is found, unless an older row has its id.
pub find-inserted :
    (w : ℕ) (t : Ticket) (xs : List Ticket)
    → t.workspace_id ≡ w
    → (t' : Ticket) × (find (is_row w t.id) (push t xs) ≡ some t')
unfolding find
find-inserted w t xs e = elim (Option-cases (find (is_row w t.id) xs)) [
  | inl fresh ↦ (t, ground (arith, find-append (is_row w t.id) xs (t ∷ [])))
  | inr (old, h) ↦ (old, ground (arith, find-append (is_row w t.id) xs (t ∷ [])))
]
