-- ===== src/Crm/Service.antt =====
-- services/client_service.py
use support_endpoint.Prelude.{
  ℕ, ℤ, String, Bool, not, Option, none, some, List, [], is_none, or_keep, or_keep_some, ◌==◌,
  clamp_limit, clamp_offset,
}
use support_endpoint.Models.{ClientOrganization, Client, ClientContact}
use support_endpoint.Session.{
  Action, not_found, validation, ◌>>=◌, ◌>>◌, pure, query, or_raise, raise_if, commit,
}
use support_endpoint.Audit.{record_event, record_success}
use support_endpoint.Ticket.Repo.{get_client as find_client}
use support_endpoint.Crm.Repo
use support_endpoint.Crm.Repo.{CrmQueries, ClientCreateRequest}

unfoldable pub create_organization : ℕ → ℕ → String → String → String → Action ClientOrganization
unfolding Repo.create_organization record_event
create_organization workspace_id actor_user_id name domain notes = do
  org ← Repo.create_organization workspace_id name domain notes
  record_success "crm.organization.created" workspace_id actor_user_id "client_organization" org.id
      []
  commit
  pure org

unfoldable pub get_organization : ℕ → ℕ → Action ClientOrganization
get_organization workspace_id org_id = do
  org ← query (Repo.get_organization workspace_id org_id)
  or_raise org (not_found "Organization not found")

unfoldable pub list_organizations :
    CrmQueries → ℕ → String → ℤ → ℤ → Action (List ClientOrganization × ℕ)
list_organizations sql workspace_id q limit offset =
    query (Repo.list_organizations sql workspace_id q (clamp_limit limit) (clamp_offset offset))

-- schemas/client.py: the fields of a request to update an organization.
pub record OrganizationUpdateRequest : Type 0 where
  pub name : Option String
  pub domain : Option String
  pub notes : Option String
  pub is_active : Option Bool

-- The assignments of `ClientOrganizationService.update`.
abbrev pub revise_organization : OrganizationUpdateRequest → ClientOrganization → ClientOrganization
revise_organization payload org = record org {
  name = or_keep payload.name org.name;
  domain = or_keep payload.domain org.domain;
  notes = or_keep payload.notes org.notes;
  is_active = or_keep payload.is_active org.is_active;
}

unfoldable pub update_organization :
    ℕ → ℕ → ℕ → OrganizationUpdateRequest → Action ClientOrganization
unfolding get_organization Repo.assign_organization record_event
update_organization workspace_id actor_user_id org_id payload = do
  org ← get_organization workspace_id org_id
  Repo.assign_organization org.id (revise_organization payload)
  record_success "crm.organization.updated" workspace_id actor_user_id "client_organization" org.id
      []
  commit
  pure (revise_organization payload org)

unfoldable pub validate_organization : ℕ → Option ℕ → Action (Unit {0})
validate_organization workspace_id none = pure tt
validate_organization workspace_id (some organization_id) = do
  org ← query (Repo.get_organization workspace_id organization_id)
  raise_if (is_none org)
      (validation "organization_id does not refer to an organization in this workspace")

unfoldable pub create_client : ℕ → ℕ → ClientCreateRequest → Action Client
unfolding Repo.create_client record_event
create_client workspace_id actor_user_id payload = do
  validate_organization workspace_id payload.organization_id
  client ← Repo.create_client workspace_id payload
  record_success "crm.client.created" workspace_id actor_user_id "client" client.id []
  commit
  pure client

unfoldable pub get_client : ℕ → ℕ → Action Client
get_client workspace_id client_id = do
  client ← query (find_client workspace_id client_id)
  or_raise client (not_found "Client not found")

unfoldable pub list_clients : CrmQueries → ℕ → String → Option ℕ → ℤ → ℤ → Action (List Client × ℕ)
list_clients sql workspace_id q organization_id limit offset =
    query (
      Repo.list_clients sql workspace_id q organization_id (clamp_limit limit)
        (clamp_offset offset))

-- schemas/client.py: the fields of a request to update a client.
pub record ClientUpdateRequest : Type 0 where
  pub full_name : Option String
  pub primary_email : Option String
  pub primary_phone : Option String
  pub organization_id : Option ℕ
  pub notes : Option String
  pub is_active : Option Bool

-- The assignments of `ClientService.update`.
abbrev pub revise_client : ClientUpdateRequest → Client → Client
revise_client payload client = record client {
  organization_id = or_keep_some payload.organization_id client.organization_id;
  full_name = or_keep payload.full_name client.full_name;
  primary_email = or_keep payload.primary_email client.primary_email;
  primary_phone = or_keep payload.primary_phone client.primary_phone;
  notes = or_keep payload.notes client.notes;
  is_active = or_keep payload.is_active client.is_active;
}

unfoldable pub update_client : ℕ → ℕ → ℕ → ClientUpdateRequest → Action Client
unfolding get_client Repo.assign_client record_event
update_client workspace_id actor_user_id client_id payload = do
  client ← get_client workspace_id client_id
  validate_organization workspace_id payload.organization_id
  Repo.assign_client client.id (revise_client payload)
  record_success "crm.client.updated" workspace_id actor_user_id "client" client.id []
  commit
  pure (revise_client payload client)

unfoldable pub add_contact : ℕ → ℕ → ℕ → String → String → String → Action ClientContact
unfolding get_client Repo.create_contact record_event
add_contact workspace_id actor_user_id client_id label channel_type value = do
  get_client workspace_id client_id
  contact ← Repo.create_contact workspace_id client_id label channel_type value
  record_success "crm.client_contact.created" workspace_id actor_user_id "client_contact" contact.id
      []
  commit
  pure contact

unfoldable pub list_contacts : ℕ → ℕ → Action (List ClientContact)
unfolding get_client
list_contacts workspace_id client_id = do
  get_client workspace_id client_id
  query (Repo.list_for_client workspace_id client_id)

unfoldable pub delete_contact : ℕ → ℕ → ℕ → ℕ → Action (Unit {0})
unfolding Repo.delete_contact record_event
delete_contact workspace_id actor_user_id client_id contact_id = do
  found ← query (Repo.get_contact workspace_id contact_id)
  contact ← or_raise found (not_found "Contact not found")
  raise_if (not (contact.client_id == client_id)) (not_found "Contact not found")
  Repo.delete_contact contact
  record_success "crm.client_contact.deleted" workspace_id actor_user_id "client_contact" contact_id
      []
  commit
