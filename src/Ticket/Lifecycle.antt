-- ===== src/Ticket/Lifecycle.antt =====
-- The life of a ticket over any run of requests: it is never lost, it keeps its origin, and its
-- status moves as the rules for tickets allow.
use support_endpoint.Prelude.{
  ℕ, ◌≡◌, refl, sym, subst, subst₂, some, List, arith, inl, inr, ◌⊎◌, Bool-cases, find, find_sound,
  modify_where, find-modify_where, find-append_some, All-find, ◌∙◌, [], ◌∷◌,
}
use support_endpoint.Models.{TicketStatus, Ticket}
use support_endpoint.Session.{Db, Session, Result, ok, err}
use support_endpoint.Ticket.Calls.{handle}
use support_endpoint.Ticket.Graph.{MayMove, StatusPath, StatusPath-trans, is_transition_allowed_iff}
use support_endpoint.Ticket.Keys.{HasKeys, only_row, Step-HasKeys}
use support_endpoint.Ticket.Refines.{Ends}
use support_endpoint.Ticket.Repo.{get_in_workspace}
use support_endpoint.Ticket.Routes.{handle-Ends}
use support_endpoint.Ticket.Rows.{
  is_row, has_id, KeepsKey, revise-KeepsKey, status-KeepsKey, assignee-KeepsKey,
}
use support_endpoint.Ticket.Server.{Request, serve}
use support_endpoint.Ticket.Service.{revise}
use support_endpoint.Ticket.Step.{Step}

-- What a later version of a ticket has kept.
pub record Continues (t t' : Ticket) : Type 0 where
  pub id : t'.id ≡ t.id
  pub workspace_id : t'.workspace_id ≡ t.workspace_id
  pub client_id : t'.client_id ≡ t.client_id
  pub creator_user_id : t'.creator_user_id ≡ t.creator_user_id
  pub created_at : t'.created_at ≡ t.created_at
  pub status : StatusPath t.status t'.status

Continues-refl : (t : Ticket) → Continues t t
Continues-refl t = record {
  id = refl;
  workspace_id = refl;
  client_id = refl;
  creator_user_id = refl;
  created_at = refl;
  status = StatusPath.stay;
}

-- A ticket after one request: the same but for what an update or an assignment may write, and in the
-- same status or in one that it may move to.
pub record IsNext (t t' : Ticket) : Type 0 where
  pub id : t'.id ≡ t.id
  pub workspace_id : t'.workspace_id ≡ t.workspace_id
  pub client_id : t'.client_id ≡ t.client_id
  pub creator_user_id : t'.creator_user_id ≡ t.creator_user_id
  pub created_at : t'.created_at ≡ t.created_at
  pub status : (t'.status ≡ t.status) ⊎ MayMove t.status t'.status

-- The table holds a next version of the ticket, under its id.
abbrev HasNext : Ticket → Db → Type 0
HasNext t d = (t' : Ticket) × (find (has_id t.id) d.tickets ≡ some t') × IsNext t t'

-- After each request of a run the ticket is there, one step further.
abbrev pub Lives : Ticket → List Request → Session → Type 0
Lives t [] s = find (has_id t.id) s.stored.tickets ≡ some t
Lives t (r ∷ rs) s =
    let s' = (handle r.workspace_id r.user_id r.call (record s { now = r.at })).1 in
    (t' : Ticket) × (find (has_id t.id) s'.stored.tickets ≡ some t') × IsNext t t' × Lives t' rs s'

IsNext-refl : (t : Ticket) → IsNext t t
IsNext-refl t = record {
  id = refl;
  workspace_id = refl;
  client_id = refl;
  creator_user_id = refl;
  created_at = refl;
  status = inl refl;
}

-- A change of one row, of the ticket itself or of another.
HasNext-changed :
    (t u : Ticket) (w : ℕ) (f : Ticket → Ticket) (d : Db) {n : ℕ}
    → HasKeys d.tickets n
    → KeepsKey f
    → find (is_row w u.id) d.tickets ≡ some u
    → IsNext u (f u)
    → find (has_id t.id) d.tickets ≡ some t
    → HasNext t (record d { tickets = modify_where (has_id u.id) f d.tickets })
HasNext-changed t u w f d keys kf found next h =
    let moved =
      find-modify_where (has_id t.id) (has_id u.id) f d.tickets (λ x. ground (arith, kf.id x)) in
    elim (Bool-cases (has_id u.id t)) [
      | inr other ↦ (t, ground arith, IsNext-refl t)
      | inl same ↦
          let e : t ≡ u =
            All-find (λ (x : Ticket). x.id ≡ u.id → x ≡ u) (has_id t.id) d.tickets t
              (only_row w u.id u d.tickets keys.unique found) h (ground arith) in
          (f t, ground arith, subst (λ x. IsNext x (f x)) (sym e) next)
    ]

-- The attributes that only the creation of a ticket and a transition write.
IsNext-edited :
    (t : Ticket) (f : Ticket → Ticket)
    → KeepsKey f
    → (f t).client_id ≡ t.client_id
    → (f t).creator_user_id ≡ t.creator_user_id
    → (f t).created_at ≡ t.created_at
    → ((f t).status ≡ t.status) ⊎ MayMove t.status (f t).status
    → IsNext t (f t)
IsNext-edited t f k c u a s = record {
  id = k.id t;
  workspace_id = k.workspace_id t;
  client_id = c;
  creator_user_id = u;
  created_at = a;
  status = s;
}

module _ (t : Ticket) (w : ℕ) where
  Step-HasNext :
      (s s' : Session)
      → Step w s s'
      → HasKeys s.stored.tickets s.next_id
      → find (has_id t.id) s.stored.tickets ≡ some t
      → HasNext t s'.stored
  unfolding get_in_workspace
  Step-HasNext s s' (Step.created n e _ _ _ _ _ _ _ _ eq _) k h =
      subst (HasNext t) (sym eq)
        (t, find-append_some (has_id t.id) s.stored.tickets (n ∷ []) t h, IsNext-refl t)
  Step-HasNext s s' (Step.updated u p e found _ _ _ eq _) k h = subst (HasNext t) (sym eq) (
      HasNext-changed t u w (revise p) s.stored k (revise-KeepsKey p) found
        (IsNext-edited u _ (revise-KeepsKey p) refl refl refl (inl refl)) h)
  Step-HasNext s s' (Step.moved u g e found allowed _ _ eq _) k h = subst (HasNext t) (sym eq) (
      HasNext-changed t u w _ s.stored k (status-KeepsKey g) found
        (IsNext-edited u _ (status-KeepsKey g) refl refl refl
          (inr ((is_transition_allowed_iff u.status g).0 allowed)))
        h)
  Step-HasNext s s' (Step.assigned u a r e found _ _ _ _ _ eq _) k h = subst (HasNext t) (sym eq) (
      HasNext-changed t u w _ s.stored k (assignee-KeepsKey a) found
        (IsNext-edited u _ (assignee-KeepsKey a) refl refl refl (inl refl)) h)
  Step-HasNext s s' (Step.tagged u l e _ _ _ _ _ eq _) k h =
      subst (HasNext t) (sym eq) (t, h, IsNext-refl t)
  Step-HasNext s s' (Step.tag_kept u g e _ _ _ eq _) k h =
      subst (HasNext t) (sym eq) (t, h, IsNext-refl t)
  Step-HasNext s s' (Step.untagged u g l e _ _ _ eq _) k h =
      subst (HasNext t) (sym eq) (t, h, IsNext-refl t)
  Step-HasNext s s' (Step.no_tag u g e _ _ _ eq _) k h =
      subst (HasNext t) (sym eq) (t, h, IsNext-refl t)

  Ends-HasNext :
      (s : Session) (out : Result Ticket × Session)
      → Ends w s out
      → HasKeys s.stored.tickets s.next_id
      → find (has_id t.id) s.stored.tickets ≡ some t
      → HasNext t out.1.stored × HasKeys out.1.stored.tickets out.1.next_id
  Ends-HasNext s (ok x, s') e k h = (Step-HasNext s s' e.0 k h, Step-HasKeys w s s' e.0 k)
  Ends-HasNext s (err x, s') e k h = (
    subst (HasNext t) (sym e.0) (t, h, IsNext-refl t),
    subst₂ (λ (d : Db) n. HasKeys d.tickets n) (sym e.0) (sym e.1) k,
  )

-- A row that is found by its id has it.
found-id : (i : ℕ) (t' : Ticket) (ts : List Ticket) → find (has_id i) ts ≡ some t' → t'.id ≡ i
found-id i t' ts e = ground (arith, find_sound (has_id i) ts t' e)

serve-Lives :
    (t : Ticket) (rs : List Request) (s : Session)
    → HasKeys s.stored.tickets s.next_id
    → find (has_id t.id) s.stored.tickets ≡ some t
    → Lives t rs s
serve-Lives t [] s k h = h
serve-Lives t (r ∷ rs) s k h =
    let s' : Session = record s { now = r.at } in
    let out = handle r.workspace_id r.user_id r.call s' in
    let ((t', found, next), keys) =
      Ends-HasNext t r.workspace_id s' out (handle-Ends r.workspace_id r.user_id s' r.call) k h in
    (
      t',
      found,
      next,
      serve-Lives t' rs out.1 keys
          (subst (λ i. find (has_id i) out.1.stored.tickets ≡ some t') (sym next.id) found),
    )

IsNext-StatusPath : {a b : TicketStatus} → (b ≡ a) ⊎ MayMove a b → StatusPath a b
IsNext-StatusPath {a} {b} (inl e) = subst (StatusPath a) (sym e) StatusPath.stay
IsNext-StatusPath {a} {b} (inr m) =
    StatusPath.move StatusPath.stay ((is_transition_allowed_iff a b).1 m)

Lives-Continues :
    (t : Ticket) (rs : List Request) (s : Session)
    → Lives t rs s
    → (t' : Ticket) × (find (has_id t.id) (serve rs s).stored.tickets ≡ some t') × Continues t t'
unfolding serve
Lives-Continues t [] s h = (t, h, Continues-refl t)
Lives-Continues t (r ∷ rs) s (u, _, n, lives) =
    let s' = (handle r.workspace_id r.user_id r.call (record s { now = r.at })).1 in
    let (t', found, c) = Lives-Continues u rs s' lives in
    (
      t',
      subst (λ i. find (has_id i) (serve rs s').stored.tickets ≡ some t') n.id found,
      record {
        id = c.id ∙ n.id;
        workspace_id = c.workspace_id ∙ n.workspace_id;
        client_id = c.client_id ∙ n.client_id;
        creator_user_id = c.creator_user_id ∙ n.creator_user_id;
        created_at = c.created_at ∙ n.created_at;
        status = StatusPath-trans (IsNext-StatusPath n.status) c.status;
      },
    )

-- If ticket ids are keys below the supply of new ids, a stored ticket is stored after each request of
-- any run of requests about tickets, in any workspaces by any users: under the same id, in the same
-- workspace, for the same client, with the same creator and creation time; and each request leaves
-- its status or makes one move that the rules for tickets allow. So it is after the whole run, too.
pub serve-Continues :
    (t : Ticket) (rs : List Request) (s : Session)
    → HasKeys s.stored.tickets s.next_id
    → find (has_id t.id) s.stored.tickets ≡ some t
    → Lives t rs s
      × (t' : Ticket) × (find (has_id t.id) (serve rs s).stored.tickets ≡ some t')
      × Continues t t'
serve-Continues t rs s keys found =
    let lives = serve-Lives t rs s keys found in
    let (t', later, c) = Lives-Continues t rs s lives in (lives, t', later, c)
