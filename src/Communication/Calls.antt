-- ===== src/Communication/Calls.antt =====
-- The routes of api/v1/communications.py that write, as one type of requests, and a server that
-- handles them one after another. The body of an answer is left out.
use support_endpoint.Prelude.{ℕ, String, Option, List, [], ◌∷◌}
use support_endpoint.Session.{Session, Result, ok, err, request}
use support_endpoint.Authz.Permissions.{tickets_update, tickets_internal_comment}
use support_endpoint.Communication.Filename.{FileTools}
use support_endpoint.Communication.Attachments.{AttachmentSettings}
use support_endpoint.Communication.Router
use support_endpoint.Communication.Router.{ConversationCreateRequest, UploadFile}

-- The ids of the path after those of the workspace and the ticket, and the payload.
pub data CommunicationCall : Type 0 where
  create_conversation : ConversationCreateRequest → CommunicationCall
  create_outbound_message : ℕ → String → CommunicationCall
  record_inbound_message : ℕ → String → Option String → CommunicationCall
  create_internal_note : String → CommunicationCall
  attach_to_message : ℕ → ℕ → UploadFile → CommunicationCall
  attach_to_internal_note : ℕ → UploadFile → CommunicationCall

pub record CommunicationRequest : Type 0 where
  pub workspace_id : ℕ
  pub ticket_id : ℕ
  pub user_id : ℕ
  pub at : ℕ
  pub call : CommunicationCall

-- The permission of each route.
abbrev pub needed_permission : CommunicationCall → String
needed_permission (CommunicationCall.create_conversation payload) = tickets_update
needed_permission (CommunicationCall.create_outbound_message conversation body) = tickets_update
needed_permission (CommunicationCall.record_inbound_message conversation body ref) = tickets_update
needed_permission (CommunicationCall.create_internal_note body) = tickets_internal_comment
needed_permission (CommunicationCall.attach_to_message conversation message file) = tickets_update
needed_permission (CommunicationCall.attach_to_internal_note note file) = tickets_internal_comment

abbrev pub discard : {A : Type 0} → Result A × Session → Result (Unit {0}) × Session
discard (ok x, s) = (ok tt, s)
discard (err e, s) = (err e, s)

module _ (tools : FileTools) (settings : AttachmentSettings) where
  unfoldable pub handle_communication :
      ℕ → ℕ → ℕ → CommunicationCall → Session → Result (Unit {0}) × Session
  handle_communication w ticket user (CommunicationCall.create_conversation payload) s =
      discard (request (Router.create_conversation w ticket user payload) s)
  handle_communication w ticket user (CommunicationCall.create_outbound_message i body) s =
      discard (request (Router.create_outbound_message w ticket i user body) s)
  handle_communication w ticket user (CommunicationCall.record_inbound_message i body ref) s =
      discard (request (Router.record_inbound_message w ticket i user body ref) s)
  handle_communication w ticket user (CommunicationCall.create_internal_note body) s =
      discard (request (Router.create_internal_note w ticket user body) s)
  handle_communication w ticket user (CommunicationCall.attach_to_message i message file) s =
      discard (request (Router.attach_to_message tools settings w ticket i message user file) s)
  handle_communication w ticket user (CommunicationCall.attach_to_internal_note note file) s =
      discard (request (Router.attach_to_internal_note tools settings w ticket note user file) s)

  unfoldable pub serve_communication : List CommunicationRequest → Session → Session
  serve_communication [] s = s
  serve_communication (r ∷ rs) s =
      serve_communication rs
        (handle_communication r.workspace_id r.ticket_id r.user_id r.call
          (record s { now = r.at })).1
