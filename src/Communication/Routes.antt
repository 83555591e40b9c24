-- ===== src/Communication/Routes.antt =====
-- How the requests about communication end, and induction over runs of them.
use support_endpoint.Prelude.{ℕ, ◌≡◌, refl, sym, subst, some, String, List, [], ◌∷◌}
use support_endpoint.Models.{WorkspaceMembership}
use support_endpoint.Session.{Db, Session, Action, Result, ok, err, request, ◌>>=◌}
use support_endpoint.Authz.{get_membership, require_permission}
use support_endpoint.Authz.Guard.{IsGranted, guarded_keeps, get_membership-user}
use support_endpoint.Communication.Filename.{FileTools}
use support_endpoint.Communication.Attachments.{AttachmentSettings}
use support_endpoint.Communication.Router
use support_endpoint.Communication.Calls.{
  CommunicationCall, CommunicationRequest, needed_permission, discard, handle_communication,
  serve_communication,
}
use support_endpoint.Communication.Change.{Change}
use support_endpoint.Communication.Endings

module _ (tools : FileTools) (settings : AttachmentSettings) where
  -- A request that succeeds was allowed to its user, and made one change in the user's name; else
  -- nothing was stored.
  abbrev pub RouteEnds : ℕ → ℕ → String → Session → Result (Unit {0}) × Session → Type 0
  RouteEnds w user code s (ok x, s') =
      ((m : WorkspaceMembership) × (get_membership w user s.stored ≡ some m)
        × IsGranted code m.role_id s.stored)
      × Change tools settings w user s.stored s'.stored
  RouteEnds w user code s (err e, s') = s'.stored ≡ s.stored

  allowed-RouteEnds :
      {A : Type 0} (w user : ℕ) (code : String) (m : WorkspaceMembership) (s : Session)
      (out : Result A × Session)
      → get_membership w user s.stored ≡ some m
      → IsGranted code m.role_id s.stored
      → Endings.Ends tools settings w m.user_id s out
      → RouteEnds w user code s (discard out)
  allowed-RouteEnds w user code m s (err e, s') found held ends = ends
  allowed-RouteEnds w user code m s (ok x, s') found held ends = (
    (m, found, held),
    subst (λ actor. Change tools settings w actor s.stored s'.stored)
        (get_membership-user w user m s.stored found) ends,
  )

  guarded-RouteEnds :
      {A : Type 0} (w user : ℕ) (code : String) (f : WorkspaceMembership → Action A) (s : Session)
      → ((m : WorkspaceMembership) → Endings.Ends tools settings w m.user_id s (request (f m) s))
      → RouteEnds w user code s (discard (request (require_permission code w user >>= f) s))
  guarded-RouteEnds w user code f s k =
      guarded_keeps (λ out. RouteEnds w user code s (discard out)) code w user f s (λ e. refl)
        (λ m found held. allowed-RouteEnds w user code m s (request (f m) s) found held (k m))

  -- A request about conversations, messages, notes and attachments that succeeds was permitted to
  -- its user, and made exactly one change of the abstract kinds, in the path's workspace and in the
  -- user's name. A request that fails stores nothing.
  pub handle_communication-RouteEnds :
      (w ticket user : ℕ) (c : CommunicationCall) (s : Session)
      → RouteEnds w user
          (needed_permission c)
          s
          (handle_communication tools settings w ticket user c s)
  unfolding handle_communication
  handle_communication-RouteEnds w ticket user (CommunicationCall.create_conversation payload) s =
      unfold Router.create_conversation in
      guarded-RouteEnds w user _ _ s (λ m.
        Endings.create_conversation-Ends tools settings w ticket m.user_id s payload.channel
          payload.subject payload.external_thread_ref)
  handle_communication-RouteEnds w ticket user (CommunicationCall.create_outbound_message i body)
        s =
      unfold Router.create_outbound_message in
      guarded-RouteEnds w user _ _ s
        (λ m. Endings.create_outbound_message-Ends tools settings w ticket m.user_id s i body)
  handle_communication-RouteEnds w ticket user (CommunicationCall.record_inbound_message i body ref)
        s =
      unfold Router.record_inbound_message in
      guarded-RouteEnds w user _ _ s
        (λ m. Endings.create_inbound_message-Ends tools settings w ticket m.user_id s i body ref)
  handle_communication-RouteEnds w ticket user (CommunicationCall.create_internal_note body) s =
      unfold Router.create_internal_note in
      guarded-RouteEnds w user _ _ s
        (λ m. Endings.create_note-Ends tools settings w ticket m.user_id s body)
  handle_communication-RouteEnds w ticket user (CommunicationCall.attach_to_message i message file)
        s =
      unfold Router.attach_to_message in
      guarded-RouteEnds w user _ _ s
        (λ m. Endings.attach_to_message-Ends tools settings w ticket m.user_id s i message _ _ _)
  handle_communication-RouteEnds w ticket user (CommunicationCall.attach_to_internal_note note file)
        s =
      unfold Router.attach_to_internal_note in
      guarded-RouteEnds w user _ _ s
        (λ m. Endings.attach_to_note-Ends tools settings w ticket m.user_id s note _ _ _)

  -- A property of the stored database that every change keeps holds after any run of requests.
  module _ (P : Db → Type 0)
      (keep : (w actor : ℕ) (d d' : Db) → Change tools settings w actor d d' → P d → P d') where
    RouteEnds-keeps :
        (w user : ℕ) (code : String) (s : Session) (out : Result (Unit {0}) × Session)
        → RouteEnds w user code s out
        → P s.stored
        → P out.1.stored
    RouteEnds-keeps w user code s (ok x, s') e h = keep w user s.stored s'.stored e.1 h
    RouteEnds-keeps w user code s (err x, s') e h = subst P (sym e) h

    pub serve_communication_keeps :
        (rs : List CommunicationRequest) (s : Session)
        → P s.stored
        → P (serve_communication tools settings rs s).stored
    unfolding serve_communication
    serve_communication_keeps [] s h = h
    serve_communication_keeps (r ∷ rs) s h = serve_communication_keeps rs _ (
        RouteEnds-keeps r.workspace_id r.user_id (needed_permission r.call)
          (record s { now = r.at })
          (handle_communication tools settings r.workspace_id r.ticket_id r.user_id r.call
            (record s { now = r.at }))
          (handle_communication-RouteEnds r.workspace_id r.ticket_id r.user_id r.call
            (record s { now = r.at }))
          h)
