-- ===== src/Ticket/Keys.antt =====
-- Ticket ids: below the supply of new ids, and no two rows have the same one. So a row that is
-- found under a workspace is the only row with its id.
use support_endpoint.Prelude.{
  ℕ, ◌≤◌, ◌<◌, ◌≡◌, ◌≢◌, sym, subst₂, ◌∙◌, Bool, true, false, some, List, [], ◌∷◌, arith, All,
  All-push, All-modify_where, All-map, All-find, push, modify_where, find, Bool-cases, inl, inr,
  if◌then◌else◌,
}
use support_endpoint.Models.{Ticket}
use support_endpoint.Session.{Db, Session}
use support_endpoint.Ticket.Rows.{
  is_row, is_row-found, KeepsKey, revise-KeepsKey, status-KeepsKey, assignee-KeepsKey,
}
use support_endpoint.Ticket.Step.{Step}

abbrev pub IdsUnique : List Ticket → Type 0
IdsUnique [] = Unit
IdsUnique (t ∷ ts) = All (λ (x : Ticket). x.id ≢ t.id) ts × IdsUnique ts

-- Every id is below `n` and stands in one row.
pub record HasKeys (ts : List Ticket) (n : ℕ) : Type 0 where
  pub fresh : All (λ (t : Ticket). t.id < n) ts
  pub unique : IdsUnique ts

IdsUnique-push :
    (t : Ticket) (ts : List Ticket)
    → All (λ (x : Ticket). x.id < t.id) ts
    → IdsUnique ts
    → IdsUnique (push t ts)
IdsUnique-push t [] h u = (tt, tt)
IdsUnique-push t (x ∷ ts) h u =
    (All-push _ t ts u.0 (λ e. absurd (omega arith)), IdsUnique-push t ts h.1 u.1)

IdsUnique-modify_where :
    (q : Ticket → Bool) (f : Ticket → Ticket) (ts : List Ticket)
    → KeepsKey f
    → IdsUnique ts
    → IdsUnique (modify_where q f ts)
unfolding modify_where
IdsUnique-modify_where q f [] k u = tt
IdsUnique-modify_where q f (x ∷ ts) k u = (step (q x), IdsUnique-modify_where q f ts k u.1)
  where
    step : (b : Bool) → All (λ (y : Ticket). y.id ≢ (if b then f x else x).id) (modify_where q f ts)
    step true =
        All-modify_where q f ts (λ y _ h e. h (sym (k.id y) ∙ e ∙ k.id x))
          (λ y _ h e. h (e ∙ k.id x)) u.0
    step false = All-modify_where q f ts (λ y _ h e. h (sym (k.id y) ∙ e)) (λ y _ h e. h e) u.0

pub HasKeys-push :
    (t : Ticket) (ts : List Ticket) {n m : ℕ}
    → t.id ≡ n
    → n < m
    → HasKeys ts n
    → HasKeys (push t ts) m
HasKeys-push t ts e lt k = record {
  fresh = All-push _ t ts (All-map ts (λ x h. omega arith) k.fresh) (omega arith);
  unique = IdsUnique-push t ts (All-map ts (λ x h. omega arith) k.fresh) k.unique;
}

pub HasKeys-modify_where :
    (q : Ticket → Bool) (f : Ticket → Ticket) (ts : List Ticket) {n m : ℕ}
    → KeepsKey f
    → n ≤ m
    → HasKeys ts n
    → HasKeys (modify_where q f ts) m
HasKeys-modify_where q f ts kf le k = record {
  fresh = All-modify_where q f ts (λ x _ h. omega (arith, kf.id x)) (λ x _ h. omega arith) k.fresh;
  unique = IdsUnique-modify_where q f ts kf k.unique;
}

-- The row that is found under a workspace is the only one with its id.
pub only_row :
    (w i : ℕ) (t : Ticket) (ts : List Ticket)
    → IdsUnique ts
    → find (is_row w i) ts ≡ some t
    → All (λ (x : Ticket). x.id ≡ i → x ≡ t) ts
unfolding find
only_row w i t [] u h = tt
only_row w i t (x ∷ ts) u h = elim (Bool-cases (is_row w i x)) [
  | inl b ↦
      let e : x ≡ t = head_found (rw b at h) in
      (λ _. e, All-map ts (λ y ne same. absurd (ne (same ∙ sym (key b)))) u.0)
  | inr b ↦
      let rest = tail_found b h in
      (
        λ same. absurd (
            All-find (λ y. y.id ≢ x.id) (is_row w i) ts t u.0 rest
              ((is_row-found w i t ts rest).0 ∙ sym same)),
        only_row w i t ts u.1 rest,
      )
]
  where
    head_found : some x ≡ some t → x ≡ t
    head_found e = cc

    key : is_row w i x ≡ true → x.id ≡ i
    key b = ground arith

    tail_found :
        is_row w i x ≡ false
        → (if is_row w i x then some x else find (is_row w i) ts) ≡ some t
        → find (is_row w i) ts ≡ some t
    tail_found b e = rw b at e

pub HasKeys-later : {ts : List Ticket} {n m : ℕ} → n ≤ m → HasKeys ts n → HasKeys ts m
HasKeys-later {ts} le k = record {
  fresh = All-map ts (λ x h. omega arith) k.fresh;
  unique = k.unique;
}

abbrev Holds : Db → ℕ → Type 0
Holds d n = HasKeys d.tickets n

-- Every ticket operation keeps the ids.
pub Step-HasKeys :
    (w : ℕ) (s s' : Session)
    → Step w s s'
    → HasKeys s.stored.tickets s.next_id
    → HasKeys s'.stored.tickets s'.next_id
Step-HasKeys w s s' (Step.created t e i _ _ _ _ _ _ _ eq n) k =
    subst₂ Holds (sym eq) (sym n) (HasKeys-push t s.stored.tickets i (omega arith) k)
Step-HasKeys w s s' (Step.updated t p e _ _ _ _ eq n) k =
    subst₂ Holds (sym eq) (sym n)
      (HasKeys-modify_where _ _ s.stored.tickets (revise-KeepsKey p) (omega arith) k)
Step-HasKeys w s s' (Step.moved t g e _ _ _ _ eq n) k =
    subst₂ Holds (sym eq) (sym n)
      (HasKeys-modify_where _ _ s.stored.tickets (status-KeepsKey g) (omega arith) k)
Step-HasKeys w s s' (Step.assigned t u r e _ _ _ _ _ _ eq n) k =
    subst₂ Holds (sym eq) (sym n)
      (HasKeys-modify_where _ _ s.stored.tickets (assignee-KeepsKey u) (omega arith) k)
Step-HasKeys w s s' (Step.tagged t l e _ _ _ _ _ eq n) k =
    subst₂ Holds (sym eq) (sym n) (HasKeys-later (omega arith) k)
Step-HasKeys w s s' (Step.tag_kept t g e _ _ _ eq n) k =
    subst₂ Holds (sym eq) (sym n) (HasKeys-later (omega arith) k)
Step-HasKeys w s s' (Step.untagged t g l e _ _ _ eq n) k =
    subst₂ Holds (sym eq) (sym n) (HasKeys-later (omega arith) k)
Step-HasKeys w s s' (Step.no_tag t g e _ _ _ eq n) k =
    subst₂ Holds (sym eq) (sym n) (HasKeys-later (omega arith) k)
