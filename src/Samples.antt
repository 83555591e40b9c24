-- ===== src/Samples.antt =====
-- A small database: one workspace with a supervisor, a client with a contact, a tag, one new
-- ticket and one open task; and requests that arrive there.
use support_endpoint.Prelude.{str_eq, true, false, none, some, List, [], ◌∷◌}
use support_endpoint.Models.{
  WorkspaceMembership, Client, ClientContact, Ticket, TicketStatus, TicketPriority, SupportTask,
  TaskStatus, TicketSla, SlaPolicy,
}
use support_endpoint.Session.{Db, empty_db, Session}
use support_endpoint.Auth.Service.{Security}
use support_endpoint.Authz.Permissions.{
  tickets_update, tickets_assign, tickets_close, settings_manage,
}
use support_endpoint.Ticket.Repo.{TicketFilters, TicketQueries}
use support_endpoint.Ticket.Calls.{Call}
use support_endpoint.Ticket.Server.{Request}

abbrev pub supervisor : WorkspaceMembership
supervisor = record { id = 2; workspace_id = 1; user_id = 3; role_id = 4 }

abbrev pub printer_ticket : Ticket
printer_ticket = record {
  id = 20;
  workspace_id = 1;
  client_id = 10;
  creator_user_id = 3;
  assignee_user_id = none;
  queue_id = none;
  category_id = none;
  subject = "Printer";
  description = "It does not print";
  status = TicketStatus.new;
  priority = TicketPriority.medium;
  created_at = 0;
}

abbrev pub call_back : SupportTask
call_back = record {
  id = 30;
  workspace_id = 1;
  ticket_id = 20;
  creator_user_id = 3;
  assignee_user_id = some 3;
  title = "Call back";
  description = "";
  status = TaskStatus.opened;
  due_at = none;
  completed_at = none;
  created_at = 0;
}

abbrev pub acme : Client
acme = record {
  id = 10;
  workspace_id = 1;
  organization_id = none;
  full_name = "Acme";
  primary_email = "desk@acme.test";
  primary_phone = "";
  notes = "";
  is_active = true;
}

abbrev pub acme_phone : ClientContact
acme_phone = record {
  id = 11;
  workspace_id = 1;
  client_id = 10;
  label = "Office";
  channel_type = "phone";
  value = "555";
}

abbrev pub desk_db : Db
desk_db = record empty_db {
  memberships = supervisor ∷ [];
  permissions =
      record { id = 5; code = tickets_update; description = "" }
      ∷ record { id = 6; code = tickets_assign; description = "" }
      ∷ record { id = 7; code = tickets_close; description = "" }
      ∷ record { id = 8; code = settings_manage; description = "" }
      ∷ [];
  role_permissions =
      record { id = 50; role_id = 4; permission_id = 5 }
      ∷ record { id = 51; role_id = 4; permission_id = 6 }
      ∷ record { id = 52; role_id = 4; permission_id = 7 }
      ∷ record { id = 53; role_id = 4; permission_id = 8 }
      ∷ [];
  clients = acme ∷ [];
  contacts = acme_phone ∷ [];
  tags = record { id = 40; workspace_id = 1; name = "vip"; color = "" } ∷ [];
  tickets = printer_ticket ∷ [];
  tasks = call_back ∷ [];
}

abbrev pub desk : Session
desk = record { stored = desk_db; work = desk_db; now = 600; next_id = 100 }

abbrev pub morning : List Request
morning =
    record {
      workspace_id = 1;
      user_id = 3;
      at = 700;
      call = Call.transition 20 TicketStatus.opened;
    }
    ∷ record { workspace_id = 1; user_id = 3; at = 800; call = Call.assign 20 (some 3) }
    ∷ record { workspace_id = 1; user_id = 3; at = 900; call = Call.add_tag 20 40 }
    ∷ record { workspace_id = 1; user_id = 9; at = 950; call = Call.assign 20 none }
    ∷ []

abbrev pub any_ticket : TicketFilters
any_ticket = record {
  q = "";
  status = none;
  priority = none;
  queue_id = none;
  category_id = none;
  assignee_user_id = none;
  client_id = none;
}

-- A database that finds every text and lists in the order of insertion.
abbrev pub plain_queries : TicketQueries
plain_queries = record { contains = λ q column. true; newest_first = λ ts. ts }

-- A clock whose response is due at 1000 and whose resolution is due at 9000.
abbrev pub running_clock : TicketSla
running_clock = record {
  id = 60;
  workspace_id = 1;
  ticket_id = 20;
  policy_id = 61;
  first_response_due_at = 1000;
  resolution_due_at = 9000;
  first_response_at = none;
  resolved_at = none;
  first_response_warning_sent = false;
  resolution_warning_sent = false;
  first_response_breached = false;
  resolution_breached = false;
}

abbrev pub medium_policy : SlaPolicy
medium_policy = record {
  id = 61;
  workspace_id = 1;
  priority = TicketPriority.medium;
  first_response_minutes = 120;
  resolution_minutes = 1440;
  warning_minutes_before = 30;
  is_active = true;
}

-- The desk with a running clock, after its response was due.
abbrev pub late_db : Db
late_db = record desk_db { slas = running_clock ∷ []; policies = medium_policy ∷ [] }

abbrev pub late_desk : Session
late_desk = record { stored = late_db; work = late_db; now = 1100; next_id = 100 }

-- Libraries that leave texts as they are, and give every session the token "next".
abbrev pub plain_security : Security
plain_security = record {
  lower = λ x. x;
  hash_password = λ x. x;
  verify_password = str_eq;
  create_access_token = λ user now. "access";
  generate_opaque_token = λ i. "next";
  hash_opaque_token = λ x. x;
  refresh_token_days = 14;
}

abbrev pub signed_in_db : Db
signed_in_db = record desk_db {
  users =
      record {
        id = 3;
        email = "a@desk.test";
        password_hash = "pw";
        full_name = "A";
        is_active = true;
      }
      ∷ [];
  sessions =
      record {
        id = 70;
        user_id = 3;
        token_hash = "first";
        expires_at = 5000;
        revoked_at = none;
        user_agent = "";
        ip_address = "";
      }
      ∷ [];
}

abbrev pub signed_in : Session
signed_in = record { stored = signed_in_db; work = signed_in_db; now = 600; next_id = 100 }
