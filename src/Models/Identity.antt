-- ===== src/Models/Identity.antt =====
-- models/user.py, models/workspace.py, models/rbac.py, models/session.py and models/portal.py.
use support_endpoint.Prelude.{ℕ, String, Bool, Option}

pub record User : Type 0 where
  pub id : ℕ
  pub email : String
  pub password_hash : String
  pub full_name : String
  pub is_active : Bool

pub record Workspace : Type 0 where
  pub id : ℕ
  pub name : String
  pub slug : String

pub record WorkspaceMembership : Type 0 where
  pub id : ℕ
  pub workspace_id : ℕ
  pub user_id : ℕ
  pub role_id : ℕ

pub record Role : Type 0 where
  pub id : ℕ
  pub name : String
  pub description : String
  pub is_system : Bool

pub record Permission : Type 0 where
  pub id : ℕ
  pub code : String
  pub description : String

pub record RolePermission : Type 0 where
  pub id : ℕ
  pub role_id : ℕ
  pub permission_id : ℕ

pub record RefreshSession : Type 0 where
  pub id : ℕ
  pub user_id : ℕ
  pub token_hash : String
  pub expires_at : ℕ
  pub revoked_at : Option ℕ
  pub user_agent : String
  pub ip_address : String

pub record ClientUserLink : Type 0 where
  pub id : ℕ
  pub workspace_id : ℕ
  pub client_id : ℕ
  pub user_id : ℕ
  pub linked_by_user_id : ℕ
