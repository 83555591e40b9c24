-- ===== src/Models/Communication.antt =====
-- models/communication.py: conversations, messages, internal notes and attachments. A blob is
-- the list of its bytes, and a file name and a digest are lists of code points.
use support_endpoint.Prelude.{ℕ, String, Option, List}
use support_endpoint.Models.Enums.{ConversationChannel, MessageDirection}

pub record Conversation : Type 0 where
  pub id : ℕ
  pub workspace_id : ℕ
  pub ticket_id : ℕ
  pub created_by_user_id : ℕ
  pub channel : ConversationChannel
  pub subject : String
  pub external_thread_ref : Option String
  pub created_at : ℕ

pub record Message : Type 0 where
  pub id : ℕ
  pub workspace_id : ℕ
  pub conversation_id : ℕ
  pub author_user_id : Option ℕ
  pub direction : MessageDirection
  pub body : String
  pub external_message_ref : Option String
  pub created_at : ℕ

pub record InternalNote : Type 0 where
  pub id : ℕ
  pub workspace_id : ℕ
  pub ticket_id : ℕ
  pub author_user_id : ℕ
  pub body : String
  pub created_at : ℕ

pub record Attachment : Type 0 where
  pub id : ℕ
  pub workspace_id : ℕ
  pub message_id : Option ℕ
  pub internal_note_id : Option ℕ
  pub filename : List ℕ
  pub content_type : String
  pub size_bytes : ℕ
  pub sha256 : List ℕ
  pub content : List ℕ
