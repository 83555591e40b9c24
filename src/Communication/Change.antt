-- ===== src/Communication/Change.antt =====
-- What a request about communication may do to the database: one addition in one workspace.
-- services/communication_service.py is proved to do no other.
use support_endpoint.Prelude.{
  ℕ, ◌+◌, ◌≤◌, ◌<◌, ◌≡◌, ◌⊎◌, true, Option, none, some, ◌&&◌, push, length, any, ◌==◌, is_some,
}
use support_endpoint.Models.{
  Conversation, Message, MessageDirection, InternalNote, Attachment, AuditEvent,
}
use support_endpoint.Session.{Db}
use support_endpoint.Ticket.Repo.{get_in_workspace}
use support_endpoint.Ticket.Step.{with_event}
use support_endpoint.Communication.Filename.{FileTools}
use support_endpoint.Communication.Attachments.{AttachmentSettings}
use support_endpoint.Communication.Names.{IsSafe}
use support_endpoint.Communication.Repo.{get_conversation, attachment_usage_bytes}

-- An attachment hangs on one message or on one note, which its own workspace has.
abbrev pub Hangs : ℕ → Option ℕ → Option ℕ → Db → Type 0
Hangs w (some message) none d =
    any (λ (m : Message). m.id == message && m.workspace_id == w) d.messages ≡ true
Hangs w none (some note) d =
    any (λ (n : InternalNote). n.id == note && n.workspace_id == w) d.internal_notes ≡ true
Hangs w (some message) (some note) d = ⊥
Hangs w none none d = ⊥

-- A message that goes out is signed by the user who sends it; one that came in is not signed.
abbrev pub IsSigned : ℕ → Message → Type 0
IsSigned actor m =
    ((m.direction ≡ MessageDirection.outbound) × (m.author_user_id ≡ some actor))
    ⊎ ((m.direction ≡ MessageDirection.inbound) × (m.author_user_id ≡ none))

module _ (tools : FileTools) (settings : AttachmentSettings) where
  -- A new attachment of a workspace whose database is `d`.
  pub record Fits (w : ℕ) (d : Db) (a : Attachment) : Type 0 where
    pub hung : Hangs w a.message_id a.internal_note_id d
    pub safe : IsSafe tools a.filename
    pub measured : a.size_bytes ≡ length a.content
    pub hashed : a.sha256 ≡ tools.sha256 a.content
    pub nonempty : 0 < a.size_bytes
    pub capped : a.size_bytes ≤ settings.attachment_max_bytes
    pub within :
        attachment_usage_bytes w d + a.size_bytes ≤ settings.attachment_workspace_quota_bytes

  pub data Change (w actor : ℕ) (d d' : Db) : Type 0 where
    conversation_added :
        (c : Conversation) (e : AuditEvent)
        → c.workspace_id ≡ w
        → c.created_by_user_id ≡ actor
        → is_some (get_in_workspace w c.ticket_id d) ≡ true
        → d' ≡ with_event e (record d { conversations = push c d.conversations })
        → Change w actor d d'
    message_added :
        (m : Message) (ticket : ℕ) (e : AuditEvent)
        → m.workspace_id ≡ w
        → IsSigned actor m
        → is_some (get_conversation w ticket m.conversation_id d) ≡ true
        → d' ≡ with_event e (record d { messages = push m d.messages })
        → Change w actor d d'
    note_added :
        (n : InternalNote) (e : AuditEvent)
        → n.workspace_id ≡ w
        → n.author_user_id ≡ actor
        → is_some (get_in_workspace w n.ticket_id d) ≡ true
        → d' ≡ with_event e (record d { internal_notes = push n d.internal_notes })
        → Change w actor d d'
    attached :
        (a : Attachment) (e : AuditEvent)
        → a.workspace_id ≡ w
        → Fits w d a
        → d' ≡ with_event e (record d { attachments = push a d.attachments })
        → Change w actor d d'
