-- ===== src/Authz.antt =====
-- apps/api/app/authz: the permission codes, and the guards that every operator route depends on.
pub mod Permissions
pub mod Guard
pub mod Roles
pub mod CurrentUser
pub mod Seeding
pub mod Grants
use support_endpoint.Prelude.{
  ℕ, String, Bool, ◌&&◌, not, Option, List, map, find, select, any, ◌==◌, str_eq,
}
use support_endpoint.Models.{Permission, RolePermission, WorkspaceMembership}
use support_endpoint.Session.{Db, Action, not_found, ◌>>=◌, ◌>>◌, pure, query, or_raise, raise_if}

-- `RbacRepository.permission_codes_for_role`: the codes of the permissions granted to a role.
unfoldable pub permission_codes_for_role : ℕ → Db → List String
permission_codes_for_role role_id d =
    map (λ (p : Permission). p.code)
      (select
        (λ (p : Permission).
          any (λ (g : RolePermission). g.permission_id == p.id && g.role_id == role_id)
            d.role_permissions)
        d.permissions)

-- `MembershipRepository.get`
unfoldable pub get_membership : ℕ → ℕ → Db → Option WorkspaceMembership
get_membership workspace_id user_id d =
    find (λ (m : WorkspaceMembership). m.workspace_id == workspace_id && m.user_id == user_id)
      d.memberships

-- A membership that is missing is a 404, so that the workspace's existence stays hidden.
unfoldable pub get_workspace_membership : ℕ → ℕ → Action WorkspaceMembership
get_workspace_membership workspace_id user_id = do
  membership ← query (get_membership workspace_id user_id)
  or_raise membership (not_found "Workspace not found")

-- `code in codes`
unfoldable pub has_code : String → List String → Bool
has_code code codes = any (str_eq code) codes

unfoldable pub require_permission : String → ℕ → ℕ → Action WorkspaceMembership
unfolding get_workspace_membership
require_permission permission_code workspace_id user_id = do
  membership ← get_workspace_membership workspace_id user_id
  codes ← query (permission_codes_for_role membership.role_id)
  raise_if (not (has_code permission_code codes)) (not_found "Workspace not found")
  pure membership
