-- ===== src/Workspaces/Service.antt =====
-- services/workspace_service.py and api/v1/workspaces.py. A request for a workspace is guarded by the
-- caller's membership.
use support_endpoint.Prelude.{ℕ, String, List, []}
use support_endpoint.Models.{Workspace}
use support_endpoint.Session.{Action, unhandled, ◌>>=◌, ◌>>◌, pure, query, or_raise, commit}
use support_endpoint.Audit.{record_event, record_success}
use support_endpoint.Authz.{get_workspace_membership, permission_codes_for_role, require_permission}
use support_endpoint.Authz.Permissions.{role_administrator, users_manage}
use support_endpoint.Authz.Roles.{ensure_system_roles, lookup_id}
use support_endpoint.Workspaces.Repo
use support_endpoint.Workspaces.Repo.{WorkspaceQueries}

module _ (queries : WorkspaceQueries) (set_of : List String → List String) where
  unfoldable pub create_workspace_for_user : ℕ → String → Action Workspace
  unfolding record_event
  create_workspace_for_user user_id name = do
    role_ids ← ensure_system_roles set_of
    workspace ← Repo.create_workspace queries name
    role_id ← or_raise (lookup_id role_administrator role_ids) (unhandled "KeyError")
    Repo.create_membership workspace.id user_id role_id
    record_success "workspace.created" workspace.id user_id "workspace" workspace.id []
    commit
    pure workspace

unfoldable pub list_workspaces_for_user : ℕ → Action (List Workspace)
list_workspaces_for_user user_id = query (Repo.list_for_user user_id)

-- A missing workspace fails the validation of the answer.
unfoldable pub get_workspace : ℕ → ℕ → Action Workspace
get_workspace workspace_id user_id = do
  get_workspace_membership workspace_id user_id
  workspace ← query (Repo.get_by_id workspace_id)
  or_raise workspace (unhandled "ValidationError")

-- `sorted(codes)`, where `sorted` is a parameter.
unfoldable pub my_permissions : (List String → List String) → ℕ → ℕ → Action (List String)
my_permissions sorted workspace_id user_id = do
  membership ← get_workspace_membership workspace_id user_id
  codes ← query (permission_codes_for_role membership.role_id)
  pure (sorted codes)

unfoldable pub admin_only_ping : ℕ → ℕ → Action (Unit {0})
admin_only_ping workspace_id user_id = do
  require_permission users_manage workspace_id user_id
  pure tt
