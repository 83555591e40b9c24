-- ===== src/Communication/Downloads.antt =====
-- Who may download an attachment.
use support_endpoint.Prelude.{
  ℕ, ◌≡◌, refl, ◌↔◌, inl, inr, Bool, true, Option, none, some, ◌==◌, ap, arith, Option-cases,
  Bool-cases, is_some, subst, sym,
}
use support_endpoint.Models.{Message, Conversation, InternalNote, Attachment, WorkspaceMembership}
use support_endpoint.Session.{Db, Session, Result, ok, err, not_found, request}
use support_endpoint.Authz.{get_membership, has_code, permission_codes_for_role, require_permission}
use support_endpoint.Authz.Permissions.{tickets_read, tickets_internal_comment}
use support_endpoint.Authz.Guard.{
  IsGranted, has_code_iff, require_permission_lem, require_permission-cases,
}
use support_endpoint.Ticket.Repo.{get_in_workspace}
use support_endpoint.Communication.Repo.{get_attachment}
use support_endpoint.Communication.Attachments.{
  message_by_id, conversation_by_id, note_by_id, serve_attachment, get_attachment_for_ticket,
}
use support_endpoint.Communication.Router.{download_attachment}

-- The attachment hangs on a message in a conversation of the ticket; or on a note of the ticket, if
-- internal ones are allowed.
abbrev pub IsShown : ℕ → Type 0 → Option ℕ → Option ℕ → Db → Type 0
IsShown ticket Allowed (some i) internal_note d =
    (m : Message) × (message_by_id i d ≡ some m)
    × (c : Conversation) × (conversation_by_id m.conversation_id d ≡ some c)
    × (c.ticket_id ≡ ticket)
IsShown ticket Allowed none (some i) d =
    Allowed × (n : InternalNote) × (note_by_id i d ≡ some n) × (n.ticket_id ≡ ticket)
IsShown ticket Allowed none none d = ⊥

-- How the branch for an attachment with these columns ends: with the attachment, if it is shown; or
-- with the 404, if it is not.
abbrev Shows :
    ℕ → Bool → Attachment → Option ℕ → Option ℕ → Session → Result Attachment × Session → Type 0
Shows ticket allow a message internal_note s (ok b, s') =
    (b ≡ a) × IsShown ticket (allow ≡ true) message internal_note s.work
Shows ticket allow a message internal_note s (err e, s') =
    (e ≡ not_found "Attachment not found")
    × ¬ IsShown ticket (allow ≡ true) message internal_note s.work

serve_attachment-Shows :
    (ticket : ℕ) (allow : Bool) (a : Attachment) (message internal_note : Option ℕ) (s : Session)
    → Shows ticket allow a message internal_note s
        (serve_attachment ticket allow a message internal_note s)
unfolding serve_attachment
serve_attachment-Shows ticket allow a (some i) internal_note s =
    elim (Option-cases (message_by_id i s.work)) [
      | inl e ↦ rw e (refl, λ h. cc)
      | inr (m, e) ↦ elim (Option-cases (conversation_by_id m.conversation_id s.work)) [
        | inl f ↦ rw (e, f) (refl, λ h. ground arith)
        | inr (c, f) ↦ elim (Bool-cases (c.ticket_id == ticket)) [
          | inl g ↦ rw (e, f, g) (refl, (m, e, c, f, ground arith))
          | inr g ↦ rw (e, f, g) (refl, λ h. ground arith)
        ]
      ]
    ]
serve_attachment-Shows ticket allow a none (some i) s = elim (Bool-cases allow) [
  | inr a ↦ rw a (refl, λ h. cc)
  | inl a ↦ elim (Option-cases (note_by_id i s.work)) [
    | inl e ↦ rw (a, e) (refl, λ h. cc)
    | inr (n, e) ↦ elim (Bool-cases (n.ticket_id == ticket)) [
      | inl g ↦ rw (a, e, g) (refl, (refl, n, e, ground arith))
      | inr g ↦ rw (a, e, g) (refl, λ h. ground arith)
    ]
  ]
]
serve_attachment-Shows ticket allow a none none s = (refl, λ h. h)

-- What a branch that ends so answers.
Shows-iff :
    (ticket : ℕ) (allow : Bool) (item a : Attachment) (message internal_note : Option ℕ)
    (s : Session) (out : Result Attachment × Session)
    → Shows ticket allow item message internal_note s out
    → (out.0 ≡ ok a) ↔ ((item ≡ a) × IsShown ticket (allow ≡ true) message internal_note s.work)
Shows-iff ticket allow item a message internal_note s (ok b, s') h = (λ e. (cc, h.1), λ k. cc)
Shows-iff ticket allow item a message internal_note s (err x, s') h =
    (λ e. cc, λ k. absurd (h.1 k.1))

-- The service gives exactly the attachment of the workspace that the ticket shows.
get_attachment_for_ticket_iff :
    (w ticket i : ℕ) (allow : Bool) (a : Attachment) (s : Session)
    → ((get_attachment_for_ticket w ticket i allow s).0 ≡ ok a) ↔ (
        (is_some (get_in_workspace w ticket s.work) ≡ true)
        × (get_attachment w i s.work ≡ some a)
        × IsShown ticket (allow ≡ true) a.message_id a.internal_note_id s.work)
unfolding get_attachment_for_ticket
get_attachment_for_ticket_iff w ticket i allow a s =
    elim (Option-cases (get_in_workspace w ticket s.work)) [
      | inl e ↦ rw e (λ h. cc, λ h. cc)
      | inr (t, e) ↦ rw e (elim (Option-cases (get_attachment w i s.work)) [
        | inl f ↦ rw f (λ h. cc, λ h. cc)
        | inr (item, f) ↦
            let shown =
              Shows-iff ticket allow item a item.message_id item.internal_note_id s _ (
                serve_attachment-Shows ticket allow item item.message_id item.internal_note_id s) in
            rw f (
              λ h.
                  let k = shown.0 h in
                  (refl, ap some k.0, subst (ShownAs ticket allow s.work) k.0 k.1),
              λ h.
                  let same : item ≡ a = cc in
                  shown.1 (same, subst (ShownAs ticket allow s.work) (sym same) h.2),
            )
      ])
    ]
  where
    ShownAs : ℕ → Bool → Db → Attachment → Type 0
    ShownAs ticket' allow' d x = IsShown ticket' (allow' ≡ true) x.message_id x.internal_note_id d

IsShown-map :
    {A B : Type 0} (ticket : ℕ) (message internal_note : Option ℕ) (d : Db)
    → (A → B)
    → IsShown ticket A message internal_note d
    → IsShown ticket B message internal_note d
IsShown-map ticket (some i) internal_note d f h = h
IsShown-map ticket none (some i) d f h = (f h.0, h.1, h.2, h.3)
IsShown-map ticket none none d f h = h

-- The user is a member who may read tickets, the workspace has the ticket and the attachment, and
-- the attachment hangs on a message of the ticket, or on an internal note of it and the member may
-- read those.
abbrev pub CanDownload : ℕ → ℕ → ℕ → ℕ → Attachment → Db → Type 0
CanDownload w ticket i user a d =
    (m : WorkspaceMembership) × (get_membership w user d ≡ some m)
    × IsGranted tickets_read m.role_id d
    × (is_some (get_in_workspace w ticket d) ≡ true)
    × (get_attachment w i d ≡ some a)
    × IsShown ticket (IsGranted tickets_internal_comment m.role_id d) a.message_id
        a.internal_note_id d

abbrev opened : Session → Session
opened s = record s { work = s.stored }

-- A download gives an attachment exactly when the user is a member whose role may read tickets,
-- the workspace has the ticket and the attachment, and the attachment hangs on a message of a
-- conversation of the ticket, or on an internal note of the ticket and the role also may read
-- internal comments.
pub download_attachment_iff :
    (w ticket i user : ℕ) (a : Attachment) (s : Session)
    → ((request (download_attachment w ticket i user) s).0 ≡ ok a)
      ↔ CanDownload w ticket i user a s.stored
unfolding download_attachment request
download_attachment_iff w ticket i user a s =
    elim (require_permission-cases tickets_read w user (opened s)) [
      | inr refused ↦
          rw refused (λ h. cc, λ h. absurd (clash h.0 refused ((accepts h.0).1 (h.1, h.2))))
      | inl (m, found, held, passed) ↦
          let codes = permission_codes_for_role m.role_id s.stored in
          let internal = has_code_iff tickets_internal_comment m.role_id s.stored in
          let served =
            get_attachment_for_ticket_iff w ticket i (has_code tickets_internal_comment codes) a
              (opened s) in
          rw passed (
            λ h.
                let k = served.0 h in
                (
                  m,
                  found,
                  held,
                  k.0,
                  k.1,
                  IsShown-map ticket a.message_id a.internal_note_id s.stored internal.0 k.2,
                ),
            λ h.
                let same : h.0 ≡ m = cc in
                served.1 (
                  h.3,
                  h.4,
                  IsShown-map ticket a.message_id a.internal_note_id s.stored
                      (λ g. internal.1 (
                        subst
                          (λ (x : WorkspaceMembership).
                            IsGranted tickets_internal_comment x.role_id s.stored)
                          same g))
                      h.5,
                ),
          )
    ]
  where
    accepts :
        (m : WorkspaceMembership)
        → (require_permission tickets_read w user (opened s) ≡ (ok m, opened s))
          ↔ ((get_membership w user s.stored ≡ some m) × IsGranted tickets_read m.role_id s.stored)
    accepts = (require_permission_lem tickets_read w user (opened s)).0

    clash :
        (m : WorkspaceMembership)
        → require_permission tickets_read w user (opened s)
          ≡ (err (not_found "Workspace not found"), opened s)
        → require_permission tickets_read w user (opened s) ≡ (ok m, opened s)
        → ⊥
    clash m e f = cc
