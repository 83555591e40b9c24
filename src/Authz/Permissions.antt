-- ===== src/Authz/Permissions.antt =====
-- authz/permissions.py: the permission codes and the system roles that bundle them.
use support_endpoint.Prelude.{String, List, [], ◌∷◌}

abbrev pub clients_read : String
clients_read = "clients.read"

abbrev pub clients_write : String
clients_write = "clients.write"

abbrev pub tickets_read : String
tickets_read = "tickets.read"

abbrev pub tickets_create : String
tickets_create = "tickets.create"

abbrev pub tickets_assign : String
tickets_assign = "tickets.assign"

abbrev pub tickets_update : String
tickets_update = "tickets.update"

abbrev pub tickets_close : String
tickets_close = "tickets.close"

abbrev pub tickets_internal_comment : String
tickets_internal_comment = "tickets.internal_comment"

abbrev pub tasks_read : String
tasks_read = "tasks.read"

abbrev pub tasks_write : String
tasks_write = "tasks.write"

abbrev pub sla_read : String
sla_read = "sla.read"

abbrev pub sla_manage : String
sla_manage = "sla.manage"

abbrev pub notifications_read : String
notifications_read = "notifications.read"

abbrev pub knowledge_read : String
knowledge_read = "knowledge.read"

abbrev pub knowledge_write : String
knowledge_write = "knowledge.write"

abbrev pub ai_assist : String
ai_assist = "ai.assist"

abbrev pub users_manage : String
users_manage = "users.manage"

abbrev pub roles_manage : String
roles_manage = "roles.manage"

abbrev pub settings_manage : String
settings_manage = "settings.manage"

abbrev pub audit_read : String
audit_read = "audit.read"

abbrev pub reports_read : String
reports_read = "reports.read"

abbrev pub role_client : String
role_client = "client"

abbrev pub role_operator : String
role_operator = "operator"

abbrev pub role_supervisor : String
role_supervisor = "supervisor"

abbrev pub role_administrator : String
role_administrator = "administrator"

abbrev pub all_permissions : List String
all_permissions =
    clients_read ∷ clients_write ∷ tickets_read ∷ tickets_create ∷ tickets_assign ∷ tickets_update
    ∷ tickets_close ∷ tickets_internal_comment ∷ tasks_read ∷ tasks_write ∷ sla_read ∷ sla_manage
    ∷ notifications_read ∷ knowledge_read ∷ knowledge_write ∷ ai_assist ∷ users_manage
    ∷ roles_manage ∷ settings_manage ∷ audit_read ∷ reports_read ∷ []

abbrev pub client_permissions : List String
client_permissions = []

abbrev pub operator_permissions : List String
operator_permissions =
    clients_read ∷ tickets_read ∷ tickets_create ∷ tickets_assign ∷ tickets_update
    ∷ tickets_internal_comment ∷ tasks_read ∷ tasks_write ∷ sla_read ∷ notifications_read
    ∷ knowledge_read ∷ ai_assist ∷ []

abbrev pub supervisor_permissions : List String
supervisor_permissions =
    clients_read ∷ clients_write ∷ tickets_read ∷ tickets_create ∷ tickets_assign ∷ tickets_update
    ∷ tickets_close ∷ tickets_internal_comment ∷ tasks_read ∷ tasks_write ∷ sla_read ∷ sla_manage
    ∷ notifications_read ∷ knowledge_read ∷ knowledge_write ∷ ai_assist ∷ reports_read ∷ []

-- `SYSTEM_ROLE_PERMISSIONS`, in the dict's order.
unfoldable pub system_role_permissions : List (String × List String)
system_role_permissions =
    (role_client, client_permissions)
    ∷ (role_operator, operator_permissions)
    ∷ (role_supervisor, supervisor_permissions)
    ∷ (role_administrator, all_permissions)
    ∷ []
