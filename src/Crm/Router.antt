-- ===== src/Crm/Router.antt =====
-- api/v1/clients.py and api/v1/organizations.py: each route first requires its permission.
use support_endpoint.Prelude.{ℕ, ℤ, String, false, Option, none, some, List}
use support_endpoint.Models.{ClientOrganization, Client, ClientContact}
use support_endpoint.Session.{Action, ◌>>=◌, ◌>>◌, pure}
use support_endpoint.Authz.{require_permission}
use support_endpoint.Authz.Permissions.{clients_read, clients_write}
use support_endpoint.Crm.Repo.{CrmQueries, ClientCreateRequest}
use support_endpoint.Crm.Service
use support_endpoint.Crm.Service.{OrganizationUpdateRequest, ClientUpdateRequest}

unfoldable pub create_organization : ℕ → ℕ → String → String → String → Action ClientOrganization
create_organization workspace_id user_id name domain notes = do
  membership ← require_permission clients_write workspace_id user_id
  Service.create_organization workspace_id membership.user_id name domain notes

unfoldable pub list_organizations :
    CrmQueries → ℕ → ℕ → String → ℤ → ℤ → Action (List ClientOrganization × ℕ)
list_organizations sql workspace_id user_id q limit offset = do
  require_permission clients_read workspace_id user_id
  Service.list_organizations sql workspace_id q limit offset

unfoldable pub get_organization : ℕ → ℕ → ℕ → Action ClientOrganization
get_organization workspace_id user_id org_id = do
  require_permission clients_read workspace_id user_id
  Service.get_organization workspace_id org_id

unfoldable pub update_organization :
    ℕ → ℕ → ℕ → OrganizationUpdateRequest → Action ClientOrganization
update_organization workspace_id user_id org_id payload = do
  membership ← require_permission clients_write workspace_id user_id
  Service.update_organization workspace_id membership.user_id org_id payload

unfoldable pub create_client : ℕ → ℕ → ClientCreateRequest → Action Client
create_client workspace_id user_id payload = do
  membership ← require_permission clients_write workspace_id user_id
  Service.create_client workspace_id membership.user_id payload

unfoldable pub list_clients :
    CrmQueries → ℕ → ℕ → String → Option ℕ → ℤ → ℤ → Action (List Client × ℕ)
list_clients sql workspace_id user_id q organization_id limit offset = do
  require_permission clients_read workspace_id user_id
  Service.list_clients sql workspace_id q organization_id limit offset

unfoldable pub get_client : ℕ → ℕ → ℕ → Action Client
get_client workspace_id user_id client_id = do
  require_permission clients_read workspace_id user_id
  Service.get_client workspace_id client_id

unfoldable pub update_client : ℕ → ℕ → ℕ → ClientUpdateRequest → Action Client
update_client workspace_id user_id client_id payload = do
  membership ← require_permission clients_write workspace_id user_id
  Service.update_client workspace_id membership.user_id client_id payload

-- The request that `deactivate_client` makes of the service.
abbrev pub deactivation : ClientUpdateRequest
deactivation = record {
  full_name = none;
  primary_email = none;
  primary_phone = none;
  organization_id = none;
  notes = none;
  is_active = some false;
}

unfoldable pub deactivate_client : ℕ → ℕ → ℕ → Action (Unit {0})
deactivate_client workspace_id user_id client_id = do
  membership ← require_permission clients_write workspace_id user_id
  Service.update_client workspace_id membership.user_id client_id deactivation
  pure tt

unfoldable pub add_contact : ℕ → ℕ → ℕ → String → String → String → Action ClientContact
add_contact workspace_id user_id client_id label channel_type value = do
  membership ← require_permission clients_write workspace_id user_id
  Service.add_contact workspace_id membership.user_id client_id label channel_type value

unfoldable pub list_contacts : ℕ → ℕ → ℕ → Action (List ClientContact)
list_contacts workspace_id user_id client_id = do
  require_permission clients_read workspace_id user_id
  Service.list_contacts workspace_id client_id

unfoldable pub delete_contact : ℕ → ℕ → ℕ → ℕ → Action (Unit {0})
delete_contact workspace_id user_id client_id contact_id = do
  membership ← require_permission clients_write workspace_id user_id
  Service.delete_contact workspace_id membership.user_id client_id contact_id
