-- ===== src/Models/Crm.antt =====
-- models/client.py: organizations, clients and their contacts.
use support_endpoint.Prelude.{ℕ, String, Bool, Option}

pub record ClientOrganization : Type 0 where
  pub id : ℕ
  pub workspace_id : ℕ
  pub name : String
  pub domain : String
  pub notes : String
  pub is_active : Bool

pub record Client : Type 0 where
  pub id : ℕ
  pub workspace_id : ℕ
  pub organization_id : Option ℕ
  pub full_name : String
  pub primary_email : String
  pub primary_phone : String
  pub notes : String
  pub is_active : Bool

pub record ClientContact : Type 0 where
  pub id : ℕ
  pub workspace_id : ℕ
  pub client_id : ℕ
  pub label : String
  pub channel_type : String
  pub value : String
