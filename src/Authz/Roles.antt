-- ===== src/Authz/Roles.antt =====
-- repositories/rbac_repo.py, and `ensure_system_roles` of services/auth_service.py.
use support_endpoint.Prelude.{
  ℕ, String, Bool, true, ◌&&◌, Option, none, some, List, [], ◌∷◌, ◌++◌, push, find, any, ◌==◌,
  str_eq, if◌then◌else◌,
}
use support_endpoint.Models.{Role, Permission, RolePermission}
use support_endpoint.Session.{
  Db, Action, unhandled, ◌>>=◌, ◌>>◌, pure, query, or_raise, modify, new_uuid,
}
use support_endpoint.Authz.Permissions.{system_role_permissions}

unfoldable pub get_role_by_name : String → Db → Option Role
get_role_by_name name d = find (λ (r : Role). str_eq r.name name) d.roles

unfoldable pub create_role : String → Bool → Action Role
create_role name is_system = do
  i ← new_uuid
  let role : Role = record { id = i; name = name; description = ""; is_system = is_system }
  modify (λ d. record d { roles = push role d.roles })
  pure role

unfoldable pub get_permission_by_code : String → Db → Option Permission
get_permission_by_code code d = find (λ (p : Permission). str_eq p.code code) d.permissions

unfoldable pub create_permission : String → Action Permission
create_permission code = do
  i ← new_uuid
  let permission : Permission = record { id = i; code = code; description = "" }
  modify (λ d. record d { permissions = push permission d.permissions })
  pure permission

-- The role has the permission.
unfoldable pub has_grant : ℕ → ℕ → Db → Bool
has_grant role_id permission_id d =
    any (λ (g : RolePermission). g.role_id == role_id && g.permission_id == permission_id)
      d.role_permissions

unfoldable pub insert_grant : ℕ → ℕ → Action (Unit {0})
insert_grant role_id permission_id = do
  i ← new_uuid
  let row : RolePermission = record { id = i; role_id = role_id; permission_id = permission_id }
  modify (λ d. record d { role_permissions = push row d.role_permissions })

unfoldable pub grant : ℕ → ℕ → Action (Unit {0})
unfolding insert_grant
grant role_id permission_id = do
  existing ← query (has_grant role_id permission_id)
  if existing then pure tt else insert_grant role_id permission_id

unfoldable pub role_or_new : String → Option Role → Action Role
unfolding create_role
role_or_new name (some role) = pure role
role_or_new name none = create_role name true

unfoldable pub permission_or_new : String → Option Permission → Action Permission
unfolding create_permission
permission_or_new code (some permission) = pure permission
permission_or_new code none = create_permission code

-- `code_to_permission_id` and `role_ids` are dicts.
abbrev pub Ids : Type 0
Ids = List (String × ℕ)

-- `ids[key]`
unfoldable pub lookup_id : String → Ids → Option ℕ
lookup_id key [] = none
lookup_id key ((k, i) ∷ rest) = if str_eq k key then some i else lookup_id key rest

-- The loop over `all_codes`.
unfoldable pub ensure_permissions : List String → Action Ids
unfolding permission_or_new
ensure_permissions [] = pure []
ensure_permissions (code ∷ codes) = do
  found ← query (get_permission_by_code code)
  permission ← permission_or_new code found
  rest ← ensure_permissions codes
  pure ((code, permission.id) ∷ rest)

-- The loop over the codes of a role.
unfoldable pub grant_each : ℕ → Ids → List String → Action (Unit {0})
unfolding grant lookup_id
grant_each role_id ids [] = pure tt
grant_each role_id ids (code ∷ codes) = do
  permission_id ← or_raise (lookup_id code ids) (unhandled "KeyError")
  grant role_id permission_id
  grant_each role_id ids codes

-- The loop over SYSTEM_ROLE_PERMISSIONS.
unfoldable pub ensure_roles : Ids → List (String × List String) → Action Ids
unfolding role_or_new grant_each
ensure_roles ids [] = pure []
ensure_roles ids ((role_name, codes) ∷ rows) = do
  found ← query (get_role_by_name role_name)
  role ← role_or_new role_name found
  grant_each role.id ids codes
  rest ← ensure_roles ids rows
  pure ((role_name, role.id) ∷ rest)

-- The codes that `all_codes` collects, with repetitions.
unfoldable pub collect_codes : List (String × List String) → List String
collect_codes [] = []
collect_codes ((role_name, codes) ∷ rows) = codes ++ collect_codes rows

-- `set_of` gives the members of a set of strings in the order of its iteration.
unfoldable pub ensure_system_roles : (List String → List String) → Action Ids
unfolding ensure_permissions ensure_roles collect_codes
ensure_system_roles set_of = do
  ids ← ensure_permissions (set_of (collect_codes system_role_permissions))
  ensure_roles ids system_role_permissions
