-- ===== src/Auth/Bootstrap.antt =====
-- bootstrap_owner of services/auth_service.py, and the route of api/v1/auth.py.
use support_endpoint.Prelude.{ℕ, String, Bool, true, false, not, List, [], ◌∷◌}
use support_endpoint.Models.{User}
use support_endpoint.Session.{
  Db, Action, conflict, unhandled, ◌>>=◌, ◌>>◌, pure, query, or_raise, raise_if, commit,
}
use support_endpoint.Audit.{record_event, record_success}
use support_endpoint.Authz.Permissions.{role_administrator}
use support_endpoint.Authz.Roles.{ensure_system_roles, lookup_id}
use support_endpoint.Workspaces.Repo.{WorkspaceQueries, create_workspace, create_membership}
use support_endpoint.Auth.Repo.{create_user}
use support_endpoint.Auth.Service.{Security, TokenPair, issue_token_pair}

-- `UserRepository.any_exists`
unfoldable pub any_exists : Db → Bool
any_exists d = elim d.users [ [] ↦ false | u ∷ us ↦ true ]

module _ (lib : Security) (queries : WorkspaceQueries) (set_of : List String → List String)
    (bootstrap_enabled : Bool) where
  unfoldable pub bootstrap_owner : String → String → String → String → Action (User × ℕ)
  unfolding any_exists record_event
  bootstrap_owner email password full_name workspace_name = do
    raise_if (not bootstrap_enabled) (conflict "Bootstrap is disabled")
    exists ← query any_exists
    raise_if exists (conflict "Bootstrap has already been completed")
    role_ids ← ensure_system_roles set_of
    user ← create_user (lib.lower email) (lib.hash_password password) full_name
    workspace ← create_workspace queries workspace_name
    role_id ← or_raise (lookup_id role_administrator role_ids) (unhandled "KeyError")
    create_membership workspace.id user.id role_id
    record_success "auth.bootstrap" workspace.id user.id "workspace" workspace.id []
    commit
    pure (user, workspace.id)

  unfoldable pub bootstrap : String → String → String → String → Action TokenPair
  bootstrap email password full_name workspace_name = do
    owner ← bootstrap_owner email password full_name workspace_name
    issue_token_pair lib owner.0 "" ""
