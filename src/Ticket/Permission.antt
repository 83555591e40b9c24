-- ===== src/Ticket/Permission.antt =====
-- api/v1/tickets.py: who may do what. `needed` is the table of the permissions of the routes.
use support_endpoint.Prelude.{ℕ, String, ◌≡◌, refl, some, List, [], ◌∷◌, All, inl, inr, Bool-cases}
use support_endpoint.Models.{TicketStatus, Ticket, WorkspaceMembership}
use support_endpoint.Session.{Session, Result, ok, err, Action, request, ◌>>=◌}
use support_endpoint.Authz.{get_membership, require_permission, has_code, permission_codes_for_role}
use support_endpoint.Authz.Guard.{IsGranted, has_code_iff, require_permission-cases}
use support_endpoint.Authz.Permissions.{
  tickets_assign, tickets_close, tickets_create, tickets_update,
}
use support_endpoint.Ticket.Calls.{Call, route, handle}
use support_endpoint.Ticket.Refines.{
  Ends, create-Ends, update-Ends, transition_status-Ends, assign-Ends, add_tag-Ends,
  remove_tag-Ends,
}
use support_endpoint.Ticket.Router
use support_endpoint.Ticket.Service

-- The permissions that a request needs: one for each route, and a second one to close a ticket.
abbrev pub needed : Call → List String
needed (Call.create p) = tickets_create ∷ []
needed (Call.update i p) = tickets_update ∷ []
needed (Call.transition i TicketStatus.closed) = tickets_update ∷ tickets_close ∷ []
needed (Call.transition i _) = tickets_update ∷ []
needed (Call.assign i u) = tickets_assign ∷ []
needed (Call.add_tag i g) = tickets_update ∷ []
needed (Call.remove_tag i g) = tickets_update ∷ []

-- A success is that of a member whose role is granted the codes; a failure changes nothing.
abbrev pub Permits : List String → ℕ → ℕ → Session → Result Ticket × Session → Type 0
Permits codes w user s (ok t, s') =
    (m : WorkspaceMembership) × (get_membership w user s.stored ≡ some m)
    × All (λ (code : String). IsGranted code m.role_id s.stored) codes
Permits codes w user s (err e, s') = s'.stored ≡ s.stored

module _ (w user : ℕ) (s : Session) where
  -- What follows the guard, for the member that it has found.
  Permits-granted :
      (codes : List String) (m : WorkspaceMembership) (out : Result Ticket × Session)
      → get_membership w user s.stored ≡ some m
      → All (λ (code : String). IsGranted code m.role_id s.stored) codes
      → Ends w s out
      → Permits codes w user s out
  Permits-granted codes m (ok t, s') found granted e = (m, found, granted)
  Permits-granted codes m (err x, s') found granted e = e.0

  Permits-guarded :
      (codes : List String) (code : String) (f : WorkspaceMembership → Action Ticket)
      → ((m : WorkspaceMembership)
          → get_membership w user s.stored ≡ some m
          → IsGranted code m.role_id s.stored
          → Permits codes w user s (request (f m) s))
      → Permits codes w user s (request (require_permission code w user >>= f) s)
  unfolding request
  Permits-guarded codes code f h =
      elim (require_permission-cases code w user (record s { work = s.stored })) [
        | inl (m, found, granted, passed) ↦ rw passed (h m found granted)
        | inr denied ↦ rw denied refl
      ]

  -- A route that needs one permission.
  Permits-one :
      (code : String) (f : WorkspaceMembership → Action Ticket)
      → ((m : WorkspaceMembership) → Ends w s (request (f m) s))
      → Permits (code ∷ []) w user s (request (require_permission code w user >>= f) s)
  Permits-one code f h =
      Permits-guarded (code ∷ []) code f
        (λ m found granted. Permits-granted (code ∷ []) m _ found (granted, tt) (h m))

  Permits-close :
      (i : ℕ) (m : WorkspaceMembership)
      → get_membership w user s.stored ≡ some m
      → IsGranted tickets_update m.role_id s.stored
      → Permits (tickets_update ∷ tickets_close ∷ []) w user s (
          request
            (Router.require_close m.role_id TicketStatus.closed >>= λ _.
              Service.transition_status w m.user_id i TicketStatus.closed)
            s)
  unfolding request Router.require_close
  Permits-close i m found granted =
      elim (Bool-cases (has_code tickets_close (permission_codes_for_role m.role_id s.stored))) [
        | inl held ↦ rw held (
            Permits-granted (tickets_update ∷ tickets_close ∷ []) m
              (request (Service.transition_status w m.user_id i TicketStatus.closed) s) found
              (granted, ((has_code_iff tickets_close m.role_id s.stored).0 held, tt))
              (transition_status-Ends w m.user_id s i TicketStatus.closed))
        | inr lacking ↦ rw lacking refl
      ]

  Permits-transition :
      (i : ℕ) (target : TicketStatus)
      → Permits
          (needed (Call.transition i target))
          w
          user
          s
          (handle w user (Call.transition i target) s)
  unfolding handle route Router.transition_ticket request Router.require_close
  Permits-transition i TicketStatus.closed =
      Permits-guarded (tickets_update ∷ tickets_close ∷ []) tickets_update _ (Permits-close i)
  Permits-transition i target = Permits-one _ _ (λ m. transition_status-Ends w m.user_id s i target)

  -- A request about tickets succeeds only for a member of the path's workspace whose role is
  -- granted the permissions that the request needs, which to close a ticket are `tickets.update` and
  -- `tickets.close`; a request that fails changes nothing.
  pub handle-Permits : (c : Call) → Permits (needed c) w user s (handle w user c s)
  unfolding handle route
  handle-Permits (Call.create p) =
      unfold Router.create_ticket in Permits-one _ _ (λ m. create-Ends w m.user_id s p)
  handle-Permits (Call.update i p) =
      unfold Router.update_ticket in Permits-one _ _ (λ m. update-Ends w m.user_id s i p)
  handle-Permits (Call.transition i t) = Permits-transition i t
  handle-Permits (Call.assign i u) =
      unfold Router.assign_ticket in Permits-one _ _ (λ m. assign-Ends w m.user_id s i u)
  handle-Permits (Call.add_tag i g) =
      unfold Router.add_tag in Permits-one _ _ (λ m. add_tag-Ends w m.user_id s i g)
  handle-Permits (Call.remove_tag i g) =
      unfold Router.remove_tag in Permits-one _ _ (λ m. remove_tag-Ends w m.user_id s i g)
