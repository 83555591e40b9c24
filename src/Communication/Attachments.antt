-- ===== src/Communication/Attachments.antt =====
-- services/communication_service.py: attachments, their limits and their download.
use support_endpoint.Prelude.{
  ℕ, ◌+◌, String, Bool, not, Option, none, some, List, [], ◌∷◌, length, find, ltb, ◌==◌, str_eq,
  if◌then◌else◌,
}
use support_endpoint.Models.{Workspace, Conversation, Message, InternalNote, Attachment, Meta}
use support_endpoint.Session.{
  Db, Action, not_found, validation, ◌>>=◌, ◌>>◌, pure, raise, query, or_raise, raise_if, commit,
}
use support_endpoint.Audit.{record_event, record_success}
use support_endpoint.Communication.Repo
use support_endpoint.Communication.Filename.{FileTools, is_empty, safe_filename}
use support_endpoint.Communication.Service.{require_ticket, require_conversation}

-- core/config.py: the settings that the service reads.
pub record AttachmentSettings : Type 0 where
  pub attachment_max_bytes : ℕ
  pub attachment_workspace_quota_bytes : ℕ

-- `select(Workspace).where(Workspace.id == workspace_id)`
unfoldable pub get_workspace : ℕ → Db → Option Workspace
get_workspace workspace_id d = find (λ (w : Workspace). w.id == workspace_id) d.workspaces

-- `db.get(Message, i)`, `db.get(Conversation, i)` and `db.get(InternalNote, i)`.
unfoldable pub message_by_id : ℕ → Db → Option Message
message_by_id i d = find (λ (m : Message). m.id == i) d.messages

unfoldable pub conversation_by_id : ℕ → Db → Option Conversation
conversation_by_id i d = find (λ (c : Conversation). c.id == i) d.conversations

unfoldable pub note_by_id : ℕ → Db → Option InternalNote
note_by_id i d = find (λ (n : InternalNote). n.id == i) d.internal_notes

-- `content_type or "application/octet-stream"`
abbrev pub content_type_or_default : String → String
content_type_or_default content_type =
    if str_eq content_type "" then "application/octet-stream" else content_type

module _ (tools : FileTools) (settings : AttachmentSettings) where
  -- The row of the workspace is locked until the request ends.
  unfoldable pub validate_attachment : ℕ → List ℕ → List ℕ → Action (List ℕ)
  unfolding safe_filename
  validate_attachment workspace_id filename content = do
    safe ← safe_filename tools filename
    raise_if (is_empty content) (validation "attachment is empty")
    raise_if (ltb settings.attachment_max_bytes (length content))
        (validation "attachment exceeds the configured per-file size limit")
    workspace ← query (get_workspace workspace_id)
    or_raise workspace (not_found "Workspace not found")
    used ← query (Repo.attachment_usage_bytes workspace_id)
    raise_if (ltb settings.attachment_workspace_quota_bytes (used + length content))
        (validation "workspace attachment storage quota exceeded")
    pure safe

  unfoldable pub attach_to_message :
      ℕ → ℕ → ℕ → ℕ → ℕ → List ℕ → String → List ℕ → Action Attachment
  unfolding validate_attachment require_conversation Repo.create_attachment record_event
  attach_to_message workspace_id ticket_id conversation_id message_id actor_user_id filename
        content_type content =
      do
        conversation ← require_conversation workspace_id ticket_id conversation_id
        found ← query (Repo.get_message workspace_id conversation.id message_id)
        message ← or_raise found (not_found "Message not found")
        safe ← validate_attachment workspace_id filename content
        item ←
            Repo.create_attachment workspace_id safe (content_type_or_default content_type) content
              (tools.sha256 content) (some message.id) none
        record_success "communications.attachment.created" workspace_id actor_user_id "attachment"
            item.id
            (("ticket_id", Meta.key ticket_id)
              ∷ ("message_id", Meta.key message.id)
              ∷ ("size", Meta.size (length content))
              ∷ [])
        commit
        pure item

  unfoldable pub attach_to_note : ℕ → ℕ → ℕ → ℕ → List ℕ → String → List ℕ → Action Attachment
  unfolding validate_attachment require_ticket Repo.create_attachment record_event
  attach_to_note workspace_id ticket_id note_id actor_user_id filename content_type content = do
    require_ticket workspace_id ticket_id
    found ← query (Repo.get_note workspace_id ticket_id note_id)
    note ← or_raise found (not_found "Internal note not found")
    safe ← validate_attachment workspace_id filename content
    item ←
        Repo.create_attachment workspace_id safe (content_type_or_default content_type) content
          (tools.sha256 content) none (some note.id)
    record_success "communications.internal_attachment.created" workspace_id actor_user_id
        "attachment" item.id
        (("ticket_id", Meta.key ticket_id)
          ∷ ("internal_note_id", Meta.key note.id)
          ∷ ("size", Meta.size (length content))
          ∷ [])
    commit
    pure item

-- The branch `item.message_id is not None`.
unfoldable pub serve_message_attachment : ℕ → Attachment → ℕ → Action Attachment
serve_message_attachment ticket_id item message_id = do
  found ← query (message_by_id message_id)
  message ← or_raise found (not_found "Attachment not found")
  parent ← query (conversation_by_id message.conversation_id)
  conversation ← or_raise parent (not_found "Attachment not found")
  raise_if (not (conversation.ticket_id == ticket_id)) (not_found "Attachment not found")
  pure item

-- The branch `item.internal_note_id is not None`.
unfoldable pub serve_note_attachment : ℕ → Bool → Attachment → ℕ → Action Attachment
serve_note_attachment ticket_id allow_internal item internal_note_id = do
  raise_if (not allow_internal) (not_found "Attachment not found")
  found ← query (note_by_id internal_note_id)
  note ← or_raise found (not_found "Attachment not found")
  raise_if (not (note.ticket_id == ticket_id)) (not_found "Attachment not found")
  pure item

-- The arguments after the attachment are its `message_id` and its `internal_note_id`.
unfoldable pub serve_attachment : ℕ → Bool → Attachment → Option ℕ → Option ℕ → Action Attachment
unfolding serve_message_attachment serve_note_attachment
serve_attachment ticket_id allow_internal item (some message_id) internal_note_id =
    serve_message_attachment ticket_id item message_id
serve_attachment ticket_id allow_internal item none (some internal_note_id) =
    serve_note_attachment ticket_id allow_internal item internal_note_id
serve_attachment ticket_id allow_internal item none none = raise (not_found "Attachment not found")

unfoldable pub get_attachment_for_ticket : ℕ → ℕ → ℕ → Bool → Action Attachment
unfolding require_ticket serve_attachment
get_attachment_for_ticket workspace_id ticket_id attachment_id allow_internal = do
  require_ticket workspace_id ticket_id
  found ← query (Repo.get_attachment workspace_id attachment_id)
  item ← or_raise found (not_found "Attachment not found")
  serve_attachment ticket_id allow_internal item item.message_id item.internal_note_id
