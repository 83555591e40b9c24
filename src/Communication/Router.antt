-- ===== src/Communication/Router.antt =====
-- api/v1/communications.py: each route first requires its permission. A download answers with the
-- attachment's content, type and name.
use support_endpoint.Prelude.{
  ℕ, suc, String, Option, none, some, List, [], ◌∷◌, take, if◌then◌else◌,
}
use support_endpoint.Models.{Conversation, ConversationChannel, Message, InternalNote, Attachment}
use support_endpoint.Session.{Action, ◌>>=◌, ◌>>◌, query}
use support_endpoint.Authz.{require_permission, permission_codes_for_role, has_code}
use support_endpoint.Authz.Permissions.{tickets_read, tickets_update, tickets_internal_comment}
use support_endpoint.Communication.Filename.{FileTools, is_empty}
use support_endpoint.Communication.Attachments
use support_endpoint.Communication.Attachments.{AttachmentSettings, content_type_or_default}
use support_endpoint.Communication.Service

-- schemas/communication.py: the fields of a request to create a conversation.
pub record ConversationCreateRequest : Type 0 where
  pub channel : ConversationChannel
  pub subject : String
  pub external_thread_ref : Option String

unfoldable pub create_conversation : ℕ → ℕ → ℕ → ConversationCreateRequest → Action Conversation
create_conversation workspace_id ticket_id user_id payload = do
  membership ← require_permission tickets_update workspace_id user_id
  Service.create_conversation workspace_id ticket_id membership.user_id payload.channel
      payload.subject payload.external_thread_ref

unfoldable pub list_conversations : ℕ → ℕ → ℕ → Action (List Conversation)
list_conversations workspace_id ticket_id user_id = do
  require_permission tickets_read workspace_id user_id
  Service.list_conversations workspace_id ticket_id

unfoldable pub create_outbound_message : ℕ → ℕ → ℕ → ℕ → String → Action Message
create_outbound_message workspace_id ticket_id conversation_id user_id body = do
  membership ← require_permission tickets_update workspace_id user_id
  Service.create_outbound_message workspace_id ticket_id conversation_id membership.user_id body

unfoldable pub record_inbound_message : ℕ → ℕ → ℕ → ℕ → String → Option String → Action Message
record_inbound_message workspace_id ticket_id conversation_id user_id body ref = do
  membership ← require_permission tickets_update workspace_id user_id
  Service.create_inbound_message workspace_id ticket_id conversation_id membership.user_id body ref

unfoldable pub list_messages : ℕ → ℕ → ℕ → ℕ → Action (List Message)
list_messages workspace_id ticket_id conversation_id user_id = do
  require_permission tickets_read workspace_id user_id
  Service.list_messages workspace_id ticket_id conversation_id

unfoldable pub create_internal_note : ℕ → ℕ → ℕ → String → Action InternalNote
create_internal_note workspace_id ticket_id user_id body = do
  membership ← require_permission tickets_internal_comment workspace_id user_id
  Service.create_note workspace_id ticket_id membership.user_id body

unfoldable pub list_internal_notes : ℕ → ℕ → ℕ → Action (List InternalNote)
list_internal_notes workspace_id ticket_id user_id = do
  require_permission tickets_internal_comment workspace_id user_id
  Service.list_notes workspace_id ticket_id

-- An uploaded file: the attributes may be None or empty.
pub record UploadFile : Type 0 where
  pub filename : Option (List ℕ)
  pub content_type : Option String
  pub body : List ℕ

-- `file.filename or "attachment"`
abbrev pub filename_or_default : Option (List ℕ) → List ℕ
filename_or_default none = 97 ∷ 116 ∷ 116 ∷ 97 ∷ 99 ∷ 104 ∷ 109 ∷ 101 ∷ 110 ∷ 116 ∷ []
filename_or_default (some name) =
    if is_empty name then 97 ∷ 116 ∷ 116 ∷ 97 ∷ 99 ∷ 104 ∷ 109 ∷ 101 ∷ 110 ∷ 116 ∷ [] else name

-- `file.content_type or "application/octet-stream"`
abbrev pub upload_type : Option String → String
upload_type none = "application/octet-stream"
upload_type (some content_type) = content_type_or_default content_type

-- `file.read(n)`: the first n bytes.
unfoldable pub bounded_upload : AttachmentSettings → UploadFile → List ℕ
bounded_upload settings file = take (suc settings.attachment_max_bytes) file.body

module _ (tools : FileTools) (settings : AttachmentSettings) where
  unfoldable pub attach_to_message : ℕ → ℕ → ℕ → ℕ → ℕ → UploadFile → Action Attachment
  attach_to_message workspace_id ticket_id conversation_id message_id user_id file = do
    membership ← require_permission tickets_update workspace_id user_id
    let content = bounded_upload settings file
    Attachments.attach_to_message tools settings workspace_id ticket_id conversation_id message_id
        membership.user_id (filename_or_default file.filename) (upload_type file.content_type)
        content

  unfoldable pub attach_to_internal_note : ℕ → ℕ → ℕ → ℕ → UploadFile → Action Attachment
  attach_to_internal_note workspace_id ticket_id note_id user_id file = do
    membership ← require_permission tickets_internal_comment workspace_id user_id
    let content = bounded_upload settings file
    Attachments.attach_to_note tools settings workspace_id ticket_id note_id membership.user_id
        (filename_or_default file.filename) (upload_type file.content_type) content

unfoldable pub download_attachment : ℕ → ℕ → ℕ → ℕ → Action Attachment
download_attachment workspace_id ticket_id attachment_id user_id = do
  membership ← require_permission tickets_read workspace_id user_id
  permissions ← query (permission_codes_for_role membership.role_id)
  Attachments.get_attachment_for_ticket workspace_id ticket_id attachment_id
      (has_code tickets_internal_comment permissions)
