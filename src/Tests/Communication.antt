-- ===== src/Tests/Communication.antt =====
-- The theorems about communication at the printer's ticket, with a message that has an attachment.
use support_endpoint.Prelude.{
  ◌≡◌, ◌↔◌, refl, some, none, List, [], ◌∷◌, leb, ◌&&◌, ◌==◌, arith, find, any, select, length,
}
use support_endpoint.Models.{Attachment, ConversationChannel, MessageDirection}
use support_endpoint.Session.{Db, Session, ok, request}
use support_endpoint.Authz.Permissions.{tickets_read, tickets_internal_comment}
use support_endpoint.Samples.{desk_db, desk}
use support_endpoint.Ticket.Repo.{get_in_workspace}
use support_endpoint.Communication.Filename.{FileTools, normalize}
use support_endpoint.Communication.Repo.{attachment_usage_bytes, total_size}
use support_endpoint.Communication.Attachments.{AttachmentSettings}
use support_endpoint.Communication.Router.{UploadFile, download_attachment}
use support_endpoint.Communication.Calls.{
  CommunicationCall, CommunicationRequest, handle_communication, serve_communication,
  needed_permission,
}
use support_endpoint.Communication.Routes.{RouteEnds, handle_communication-RouteEnds}
use support_endpoint.Communication.Quota.{WithinQuota, serve_communication-WithinQuota}
use support_endpoint.Communication.Rooted.{IsRooted, serve_communication-IsRooted}
use support_endpoint.Communication.Downloads.{CanDownload, download_attachment_iff}

-- ASCII, where the digest of a content is its length.
abbrev ascii : FileTools
ascii = record {
  is_printable = λ c. leb 32 c && leb c 126;
  is_space = λ c. c == 32;
  sha256 = λ content. length content ∷ [];
}

abbrev limits : AttachmentSettings
limits = record { attachment_max_bytes = 3; attachment_workspace_quota_bytes = 4 }

-- "a.b", of two bytes.
abbrev scan : Attachment
scan = record {
  id = 73;
  workspace_id = 1;
  message_id = some 71;
  internal_note_id = none;
  filename = 97 ∷ 46 ∷ 98 ∷ [];
  content_type = "text/plain";
  size_bytes = 2;
  sha256 = 2 ∷ [];
  content = 1 ∷ 2 ∷ [];
}

abbrev talk_db : Db
talk_db = record desk_db {
  workspaces = record { id = 1; name = "desk"; slug = "desk" } ∷ [];
  permissions =
      record { id = 9; code = tickets_read; description = "" }
      ∷ record { id = 10; code = tickets_internal_comment; description = "" }
      ∷ desk_db.permissions;
  role_permissions =
      record { id = 54; role_id = 4; permission_id = 9 }
      ∷ record { id = 55; role_id = 4; permission_id = 10 }
      ∷ desk_db.role_permissions;
  conversations =
      record {
        id = 70;
        workspace_id = 1;
        ticket_id = 20;
        created_by_user_id = 3;
        channel = ConversationChannel.email;
        subject = "";
        external_thread_ref = none;
        created_at = 1;
      }
      ∷ [];
  messages =
      record {
        id = 71;
        workspace_id = 1;
        conversation_id = 70;
        author_user_id = none;
        direction = MessageDirection.inbound;
        body = "It does not print";
        external_message_ref = none;
        created_at = 2;
      }
      ∷ [];
  attachments = scan ∷ [];
}

abbrev talk : Session
talk = record desk { stored = talk_db; work = talk_db }

-- "x/../c:\log" and three bytes.
abbrev log_file : UploadFile
log_file = record {
  filename = some (120 ∷ 47 ∷ 46 ∷ 46 ∷ 47 ∷ 99 ∷ 58 ∷ 92 ∷ 108 ∷ 111 ∷ 103 ∷ []);
  content_type = none;
  body = 1 ∷ 2 ∷ 3 ∷ [];
}

-- "log"
log_name :
    normalize ascii (120 ∷ 47 ∷ 46 ∷ 46 ∷ 47 ∷ 99 ∷ 58 ∷ 92 ∷ 108 ∷ 111 ∷ 103 ∷ [])
    ≡ 108 ∷ 111 ∷ 103 ∷ []
unfolding normalize select
log_name = refl

abbrev request_of : CommunicationCall → CommunicationRequest
request_of c = record { workspace_id = 1; ticket_id = 20; user_id = 3; at = 700; call = c }

abbrev calls : List CommunicationRequest
calls =
    request_of (CommunicationCall.create_outbound_message 70 "Is it plugged in?")
    ∷ request_of (CommunicationCall.create_internal_note "Ask again")
    ∷ request_of (CommunicationCall.attach_to_message 70 71 log_file)
    ∷ request_of (CommunicationCall.attach_to_internal_note 101 log_file)
    ∷ []

handle_communication-RouteEnds_example :
    RouteEnds ascii limits 1 3
      (needed_permission (CommunicationCall.create_internal_note "Ask again"))
      talk
      (handle_communication ascii limits 1 20 3
        (CommunicationCall.create_internal_note "Ask again")
        talk)
handle_communication-RouteEnds_example =
    handle_communication-RouteEnds ascii limits 1 20 3
      (CommunicationCall.create_internal_note "Ask again") talk

download_attachment_iff_example :
    ((request (download_attachment 1 20 73 3) talk).0 ≡ ok scan)
    ↔ CanDownload 1 20 73 3 scan talk_db
download_attachment_iff_example = download_attachment_iff 1 20 73 3 scan talk

talk-WithinQuota : WithinQuota limits talk_db
unfolding attachment_usage_bytes select total_size
talk-WithinQuota w = ground arith

serve_communication-WithinQuota_example :
    WithinQuota limits (serve_communication ascii limits calls talk).stored
serve_communication-WithinQuota_example =
    serve_communication-WithinQuota limits ascii calls talk talk-WithinQuota

talk-IsRooted : IsRooted ascii limits talk_db
unfolding get_in_workspace any find
talk-IsRooted = record {
  conversations = (refl, tt);
  messages = (refl, tt);
  notes = tt;
  attachments = (
    (
      refl,
      record { plain = ground arith; named = refl; inside = refl; short = omega arith },
      refl,
      omega arith,
      omega arith,
    ),
    tt,
  );
}

serve_communication-IsRooted_example :
    IsRooted ascii limits (serve_communication ascii limits calls talk).stored
serve_communication-IsRooted_example =
    serve_communication-IsRooted ascii limits calls talk talk-IsRooted
