-- ===== src/Communication/Repo.antt =====
-- repositories/communication_repo.py. Rows are added in the order of `created_at`.
use support_endpoint.Prelude.{
  ℕ, ◌+◌, String, ◌&&◌, Option, List, [], ◌∷◌, push, length, find, select, ◌==◌,
}
use support_endpoint.Models.{
  Conversation, ConversationChannel, Message, MessageDirection, InternalNote, Attachment,
}
use support_endpoint.Session.{Db, Action, ◌>>=◌, ◌>>◌, pure, modify, new_uuid, utcnow}

unfoldable pub create_conversation :
    ℕ → ℕ → ℕ → ConversationChannel → String → Option String → Action Conversation
create_conversation workspace_id ticket_id created_by_user_id channel subject external_thread_ref =
    do
      i ← new_uuid
      now ← utcnow
      let item : Conversation = record {
        id = i;
        workspace_id = workspace_id;
        ticket_id = ticket_id;
        created_by_user_id = created_by_user_id;
        channel = channel;
        subject = subject;
        external_thread_ref = external_thread_ref;
        created_at = now;
      }
      modify (λ d. record d { conversations = push item d.conversations })
      pure item

unfoldable pub get_conversation : ℕ → ℕ → ℕ → Db → Option Conversation
get_conversation workspace_id ticket_id conversation_id d =
    find
      (λ (c : Conversation).
        c.id == conversation_id && c.workspace_id == workspace_id && c.ticket_id == ticket_id)
      d.conversations

unfoldable pub list_conversations : ℕ → ℕ → Db → List Conversation
list_conversations workspace_id ticket_id d =
    select (λ (c : Conversation). c.workspace_id == workspace_id && c.ticket_id == ticket_id)
      d.conversations

unfoldable pub create_message :
    ℕ → ℕ → Option ℕ → MessageDirection → String → Option String → Action Message
create_message workspace_id conversation_id author_user_id direction body external_message_ref = do
  i ← new_uuid
  now ← utcnow
  let item : Message = record {
    id = i;
    workspace_id = workspace_id;
    conversation_id = conversation_id;
    author_user_id = author_user_id;
    direction = direction;
    body = body;
    external_message_ref = external_message_ref;
    created_at = now;
  }
  modify (λ d. record d { messages = push item d.messages })
  pure item

unfoldable pub get_message : ℕ → ℕ → ℕ → Db → Option Message
get_message workspace_id conversation_id message_id d =
    find
      (λ (m : Message).
        m.id == message_id
        && m.workspace_id == workspace_id
        && m.conversation_id == conversation_id)
      d.messages

unfoldable pub list_messages : ℕ → ℕ → Db → List Message
list_messages workspace_id conversation_id d =
    select (λ (m : Message). m.workspace_id == workspace_id && m.conversation_id == conversation_id)
      d.messages

unfoldable pub create_note : ℕ → ℕ → ℕ → String → Action InternalNote
create_note workspace_id ticket_id author_user_id body = do
  i ← new_uuid
  now ← utcnow
  let item : InternalNote = record {
    id = i;
    workspace_id = workspace_id;
    ticket_id = ticket_id;
    author_user_id = author_user_id;
    body = body;
    created_at = now;
  }
  modify (λ d. record d { internal_notes = push item d.internal_notes })
  pure item

unfoldable pub get_note : ℕ → ℕ → ℕ → Db → Option InternalNote
get_note workspace_id ticket_id note_id d =
    find
      (λ (n : InternalNote).
        n.id == note_id && n.workspace_id == workspace_id && n.ticket_id == ticket_id)
      d.internal_notes

unfoldable pub list_notes : ℕ → ℕ → Db → List InternalNote
list_notes workspace_id ticket_id d =
    select (λ (n : InternalNote). n.workspace_id == workspace_id && n.ticket_id == ticket_id)
      d.internal_notes

-- The last two arguments are `message_id` and `internal_note_id`.
unfoldable pub create_attachment :
    ℕ → List ℕ → String → List ℕ → List ℕ → Option ℕ → Option ℕ → Action Attachment
create_attachment workspace_id filename content_type content sha256 message_id internal_note_id = do
  i ← new_uuid
  let item : Attachment = record {
    id = i;
    workspace_id = workspace_id;
    message_id = message_id;
    internal_note_id = internal_note_id;
    filename = filename;
    content_type = content_type;
    size_bytes = length content;
    sha256 = sha256;
    content = content;
  }
  modify (λ d. record d { attachments = push item d.attachments })
  pure item

unfoldable pub get_attachment : ℕ → ℕ → Db → Option Attachment
get_attachment workspace_id attachment_id d =
    find (λ (a : Attachment). a.id == attachment_id && a.workspace_id == workspace_id) d.attachments

-- `func.coalesce(func.sum(Attachment.size_bytes), 0)`
unfoldable pub total_size : List Attachment → ℕ
total_size [] = 0
total_size (a ∷ rest) = a.size_bytes + total_size rest

unfoldable pub attachment_usage_bytes : ℕ → Db → ℕ
unfolding total_size
attachment_usage_bytes workspace_id d =
    total_size (select (λ (a : Attachment). a.workspace_id == workspace_id) d.attachments)
