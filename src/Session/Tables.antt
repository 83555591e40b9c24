-- ===== src/Session/Tables.antt =====
-- The database: one list of rows for each table, in the order of insertion.
use support_endpoint.Prelude.{ℕ, List, []}
use support_endpoint.Models.{
  User, Workspace, WorkspaceMembership, Role, Permission, RolePermission, RefreshSession,
  ClientUserLink, ClientOrganization, Client, ClientContact, Queue, TicketCategory, Tag, Ticket,
  TicketAssignment, TicketTag, Conversation, Message, InternalNote, Attachment, SupportTask,
  SlaPolicy, TicketSla, Notification, AuditEvent, KnowledgeArticle, AiSuggestion,
}

pub record Db : Type 0 where
  pub users : List User
  pub workspaces : List Workspace
  pub memberships : List WorkspaceMembership
  pub roles : List Role
  pub permissions : List Permission
  pub role_permissions : List RolePermission
  pub sessions : List RefreshSession
  pub client_user_links : List ClientUserLink
  pub organizations : List ClientOrganization
  pub clients : List Client
  pub contacts : List ClientContact
  pub queues : List Queue
  pub categories : List TicketCategory
  pub tags : List Tag
  pub tickets : List Ticket
  pub assignments : List TicketAssignment
  pub ticket_tags : List TicketTag
  pub conversations : List Conversation
  pub messages : List Message
  pub internal_notes : List InternalNote
  pub attachments : List Attachment
  pub tasks : List SupportTask
  pub policies : List SlaPolicy
  pub slas : List TicketSla
  pub notifications : List Notification
  pub audit_events : List AuditEvent
  pub knowledge_articles : List KnowledgeArticle
  pub ai_suggestions : List AiSuggestion

abbrev pub empty_db : Db
empty_db = record {
  users = [];
  workspaces = [];
  memberships = [];
  roles = [];
  permissions = [];
  role_permissions = [];
  sessions = [];
  client_user_links = [];
  organizations = [];
  clients = [];
  contacts = [];
  queues = [];
  categories = [];
  tags = [];
  tickets = [];
  assignments = [];
  ticket_tags = [];
  conversations = [];
  messages = [];
  internal_notes = [];
  attachments = [];
  tasks = [];
  policies = [];
  slas = [];
  notifications = [];
  audit_events = [];
  knowledge_articles = [];
  ai_suggestions = [];
}

-- `now` is the instant at which the request runs; `next_id` is the next value of `new_uuid`.
pub record Session : Type 0 where
  pub stored : Db
  pub work : Db
  pub now : ℕ
  pub next_id : ℕ
