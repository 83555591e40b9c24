-- ===== src/Workspaces/Repo.antt =====
-- repositories/workspace_repo.py
use support_endpoint.Prelude.{
  ℕ, zero, suc, ◌+◌, String, ◌&&◌, Option, none, some, List, length, push, find, select, any,
  is_some, if◌then◌else◌, ◌==◌, str_eq,
}
use support_endpoint.Models.{Workspace, WorkspaceMembership}
use support_endpoint.Session.{
  Db, Action, unhandled, ◌>>=◌, ◌>>◌, pure, query, or_raise, modify, new_uuid, raise_if,
}
use support_endpoint.Workspaces.Decimal.{str}
use support_endpoint.Workspaces.Slugify.{slugify}
use Prim.Native.String.{◌++◌ as text_append}

-- What the code calls: `str.lower`, and ORDER BY the id.
pub record WorkspaceQueries : Type 0 where
  pub lower : String → String
  pub by_id : List Workspace → List Workspace

-- `db.get(Workspace, workspace_id)`
unfoldable pub get_by_id : ℕ → Db → Option Workspace
get_by_id workspace_id d = find (λ (w : Workspace). w.id == workspace_id) d.workspaces

unfoldable pub get_by_slug : String → Db → Option Workspace
get_by_slug slug d = find (λ (w : Workspace). str_eq w.slug slug) d.workspaces

-- The slug at a value of `suffix`: the base at 1, then f"{base_slug}-{suffix}".
unfoldable pub candidate : String → ℕ → String
candidate base_slug suffix =
    if suffix == 1 then base_slug else text_append base_slug (text_append "-" (str suffix))

-- The loop of `create`, on fuel.
unfoldable pub free_slug : String → ℕ → ℕ → Db → Option String
free_slug base_slug zero suffix d = none
free_slug base_slug (suc fuel) suffix d =
    let rest = free_slug base_slug fuel (suffix + 1) d in
    if is_some (get_by_slug (candidate base_slug suffix) d)
    then rest
    else some (candidate base_slug suffix)

module _ (queries : WorkspaceQueries) where
  -- `WorkspaceRepository.create`. The column `slug` is unique; its width is not enforced.
  unfoldable pub create_workspace : String → Action Workspace
  create_workspace name = do
    found ← query (λ d. free_slug (slugify queries.lower name) (suc (length d.workspaces)) 1 d)
    slug ← or_raise found (unhandled "out of fuel")
    i ← new_uuid
    taken ← query (λ d. any (λ (w : Workspace). str_eq w.slug slug) d.workspaces)
    raise_if taken (unhandled "IntegrityError")
    let workspace : Workspace = record { id = i; name = name; slug = slug }
    modify (λ d. record d { workspaces = push workspace d.workspaces })
    pure workspace

  unfoldable pub list_all : Db → List Workspace
  list_all d = queries.by_id d.workspaces

-- `MembershipRepository.create`, with `uq_membership_workspace_user`.
unfoldable pub create_membership : ℕ → ℕ → ℕ → Action WorkspaceMembership
create_membership workspace_id user_id role_id = do
  i ← new_uuid
  taken ← query (λ d.
      any (λ (m : WorkspaceMembership). m.workspace_id == workspace_id && m.user_id == user_id)
        d.memberships)
  raise_if taken (unhandled "IntegrityError")
  let membership : WorkspaceMembership = record {
    id = i;
    workspace_id = workspace_id;
    user_id = user_id;
    role_id = role_id;
  }
  modify (λ d. record d { memberships = push membership d.memberships })
  pure membership

-- `WorkspaceRepository.list_for_user`
unfoldable pub list_for_user : ℕ → Db → List Workspace
list_for_user user_id d =
    select
      (λ (w : Workspace).
        any (λ (m : WorkspaceMembership). m.workspace_id == w.id && m.user_id == user_id)
          d.memberships)
      d.workspaces
