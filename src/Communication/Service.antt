-- ===== src/Communication/Service.antt =====
-- services/communication_service.py: conversations, messages and internal notes.
use support_endpoint.Prelude.{ℕ, String, Option, none, some, List, [], ◌∷◌}
use support_endpoint.Models.{
  Ticket, Conversation, ConversationChannel, Message, MessageDirection, InternalNote, Meta,
}
use support_endpoint.Session.{Action, not_found, ◌>>=◌, ◌>>◌, pure, query, or_raise, commit}
use support_endpoint.Audit.{record_event, record_success}
use support_endpoint.Ticket.Repo.{get_in_workspace}
use support_endpoint.Communication.Repo

-- `item.channel.value`
unfoldable pub channel_value : ConversationChannel → String
channel_value ConversationChannel.web = "web"
channel_value ConversationChannel.email = "email"
channel_value ConversationChannel.chat = "chat"
channel_value ConversationChannel.phone = "phone"
channel_value ConversationChannel.api = "api"

-- `_ticket`
unfoldable pub require_ticket : ℕ → ℕ → Action Ticket
require_ticket workspace_id ticket_id = do
  ticket ← query (get_in_workspace workspace_id ticket_id)
  or_raise ticket (not_found "Ticket not found")

-- `_conversation`
unfoldable pub require_conversation : ℕ → ℕ → ℕ → Action Conversation
unfolding require_ticket
require_conversation workspace_id ticket_id conversation_id = do
  require_ticket workspace_id ticket_id
  item ← query (Repo.get_conversation workspace_id ticket_id conversation_id)
  or_raise item (not_found "Conversation not found")

unfoldable pub create_conversation :
    ℕ → ℕ → ℕ → ConversationChannel → String → Option String → Action Conversation
unfolding require_ticket Repo.create_conversation record_event
create_conversation workspace_id ticket_id actor_user_id channel subject external_thread_ref = do
  require_ticket workspace_id ticket_id
  item ←
      Repo.create_conversation workspace_id ticket_id actor_user_id channel subject
        external_thread_ref
  record_success "communications.conversation.created" workspace_id actor_user_id "conversation"
      item.id
      (("ticket_id", Meta.key ticket_id) ∷ ("channel", Meta.text (channel_value item.channel)) ∷ [])
  commit
  pure item

unfoldable pub list_conversations : ℕ → ℕ → Action (List Conversation)
unfolding require_ticket
list_conversations workspace_id ticket_id = do
  require_ticket workspace_id ticket_id
  query (Repo.list_conversations workspace_id ticket_id)

unfoldable pub create_outbound_message : ℕ → ℕ → ℕ → ℕ → String → Action Message
unfolding require_conversation Repo.create_message record_event
create_outbound_message workspace_id ticket_id conversation_id actor_user_id body = do
  conversation ← require_conversation workspace_id ticket_id conversation_id
  item ←
      Repo.create_message workspace_id conversation.id (some actor_user_id)
        MessageDirection.outbound body none
  record_success "communications.message.created" workspace_id actor_user_id "message" item.id
      (("ticket_id", Meta.key ticket_id) ∷ ("direction", Meta.text "outbound") ∷ [])
  commit
  pure item

unfoldable pub create_inbound_message : ℕ → ℕ → ℕ → ℕ → String → Option String → Action Message
unfolding require_conversation Repo.create_message record_event
create_inbound_message workspace_id ticket_id conversation_id actor_user_id body ref = do
  conversation ← require_conversation workspace_id ticket_id conversation_id
  item ← Repo.create_message workspace_id conversation.id none MessageDirection.inbound body ref
  record_success "communications.message.received" workspace_id actor_user_id "message" item.id
      (("ticket_id", Meta.key ticket_id) ∷ ("direction", Meta.text "inbound") ∷ [])
  commit
  pure item

unfoldable pub list_messages : ℕ → ℕ → ℕ → Action (List Message)
unfolding require_conversation
list_messages workspace_id ticket_id conversation_id = do
  conversation ← require_conversation workspace_id ticket_id conversation_id
  query (Repo.list_messages workspace_id conversation.id)

unfoldable pub create_note : ℕ → ℕ → ℕ → String → Action InternalNote
unfolding require_ticket Repo.create_note record_event
create_note workspace_id ticket_id actor_user_id body = do
  require_ticket workspace_id ticket_id
  item ← Repo.create_note workspace_id ticket_id actor_user_id body
  record_success "communications.internal_note.created" workspace_id actor_user_id "internal_note"
      item.id (("ticket_id", Meta.key ticket_id) ∷ [])
  commit
  pure item

unfoldable pub list_notes : ℕ → ℕ → Action (List InternalNote)
unfolding require_ticket
list_notes workspace_id ticket_id = do
  require_ticket workspace_id ticket_id
  query (Repo.list_notes workspace_id ticket_id)
