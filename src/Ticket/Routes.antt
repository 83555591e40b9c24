-- ===== src/Ticket/Routes.antt =====
-- api/v1/tickets.py: every request that writes takes one step of Ticket/Step.antt in the
-- workspace of its path, or changes nothing.
use support_endpoint.Prelude.{ℕ, String, refl, inl, inr, Bool-cases}
use support_endpoint.Models.{TicketStatus, Ticket, WorkspaceMembership}
use support_endpoint.Session.{Session, Action, request, ◌>>=◌}
use support_endpoint.Authz.{require_permission, has_code, permission_codes_for_role}
use support_endpoint.Authz.Guard.{require_permission-cases}
use support_endpoint.Authz.Permissions.{tickets_close}
use support_endpoint.Ticket.Calls.{Call, route, handle}
use support_endpoint.Ticket.Router
use support_endpoint.Ticket.Service
use support_endpoint.Ticket.Refines.{
  Ends, create-Ends, update-Ends, transition_status-Ends, assign-Ends, add_tag-Ends,
  remove_tag-Ends,
}

module _ (w user : ℕ) (s : Session) where
  guarded-Ends :
      (code : String) (f : WorkspaceMembership → Action Ticket)
      → ((m : WorkspaceMembership) → Ends w s (request (f m) s))
      → Ends w s (request (require_permission code w user >>= f) s)
  unfolding request
  guarded-Ends code f h =
      elim (require_permission-cases code w user (record s { work = s.stored })) [
        | inl (m, _, _, passed) ↦ rw passed (h m)
        | inr denied ↦ rw denied (refl, refl)
      ]

  close-Ends :
      (m : WorkspaceMembership) (i : ℕ) (target : TicketStatus)
      → Ends w s (
          request
            (Router.require_close m.role_id target >>= λ _.
              Service.transition_status w m.user_id i target)
            s)
  unfolding request Router.require_close
  close-Ends m i TicketStatus.closed =
      elim (Bool-cases (has_code tickets_close (permission_codes_for_role m.role_id s.stored))) [
        | inl held ↦ rw held (transition_status-Ends w m.user_id s i TicketStatus.closed)
        | inr lacking ↦ rw lacking (refl, refl)
      ]
  close-Ends m i target = transition_status-Ends w m.user_id s i target

  -- A request about tickets either raises, and then neither the stored database nor the supply
  -- of ids has changed, or it takes exactly one step of the abstract service desk in the path's
  -- workspace and returns the ticket as the database then holds it.
  pub handle-Ends : (c : Call) → Ends w s (handle w user c s)
  unfolding handle route
  handle-Ends (Call.create p) =
      unfold Router.create_ticket in guarded-Ends _ _ (λ m. create-Ends w m.user_id s p)
  handle-Ends (Call.update i p) =
      unfold Router.update_ticket in guarded-Ends _ _ (λ m. update-Ends w m.user_id s i p)
  handle-Ends (Call.transition i t) =
      unfold Router.transition_ticket in guarded-Ends _ _ (λ m. close-Ends m i t)
  handle-Ends (Call.assign i u) =
      unfold Router.assign_ticket in guarded-Ends _ _ (λ m. assign-Ends w m.user_id s i u)
  handle-Ends (Call.add_tag i g) =
      unfold Router.add_tag in guarded-Ends _ _ (λ m. add_tag-Ends w m.user_id s i g)
  handle-Ends (Call.remove_tag i g) =
      unfold Router.remove_tag in guarded-Ends _ _ (λ m. remove_tag-Ends w m.user_id s i g)
