-- ===== src/Crm/Repo.antt =====
-- repositories/client_repo.py. The read of a client in its workspace is in Ticket/Repo.antt.
use support_endpoint.Prelude.{
  ℕ, String, Bool, true, ◌&&◌, ◌||◌, Option, List, push, length, take, drop, find, select,
  modify_where, remove_where, unless_none, holds, ◌==◌, str_eq,
}
use support_endpoint.Models.{ClientOrganization, Client, ClientContact}
use support_endpoint.Session.{Db, Action, ◌>>=◌, ◌>>◌, pure, modify, new_uuid}

-- What the database does for a listing: `contains q column` stands for
-- `func.lower(column).like(f"%{q.lower()}%")`, and the others for `order_by` of a name.
pub record CrmQueries : Type 0 where
  pub contains : String → String → Bool
  pub organizations_by_name : List ClientOrganization → List ClientOrganization
  pub clients_by_name : List Client → List Client

unfoldable pub create_organization : ℕ → String → String → String → Action ClientOrganization
create_organization workspace_id name domain notes = do
  i ← new_uuid
  let org : ClientOrganization = record {
    id = i;
    workspace_id = workspace_id;
    name = name;
    domain = domain;
    notes = notes;
    is_active = true;
  }
  modify (λ d. record d { organizations = push org d.organizations })
  pure org

unfoldable pub get_organization : ℕ → ℕ → Db → Option ClientOrganization
get_organization workspace_id org_id d =
    find (λ (o : ClientOrganization). o.id == org_id && o.workspace_id == workspace_id)
      d.organizations

-- Assigning to attributes of a loaded organization.
unfoldable pub assign_organization :
    ℕ → (ClientOrganization → ClientOrganization) → Action (Unit {0})
assign_organization org_id f = modify λ d. record d {
  organizations = modify_where (λ (o : ClientOrganization). o.id == org_id) f d.organizations;
}

-- schemas/client.py: the fields of a request to create a client.
pub record ClientCreateRequest : Type 0 where
  pub full_name : String
  pub primary_email : String
  pub primary_phone : String
  pub organization_id : Option ℕ
  pub notes : String

-- The row that `ClientRepository.create` inserts, with its column defaults.
abbrev pub new_client : ℕ → ℕ → ClientCreateRequest → Client
new_client i workspace_id payload = record {
  id = i;
  workspace_id = workspace_id;
  organization_id = payload.organization_id;
  full_name = payload.full_name;
  primary_email = payload.primary_email;
  primary_phone = payload.primary_phone;
  notes = payload.notes;
  is_active = true;
}

unfoldable pub create_client : ℕ → ClientCreateRequest → Action Client
create_client workspace_id payload = do
  i ← new_uuid
  let client : Client = new_client i workspace_id payload
  modify (λ d. record d { clients = push client d.clients })
  pure client

-- Assigning to attributes of a loaded client.
unfoldable pub assign_client : ℕ → (Client → Client) → Action (Unit {0})
assign_client client_id f =
    modify λ d. record d { clients = modify_where (λ (c : Client). c.id == client_id) f d.clients }

unfoldable pub create_contact : ℕ → ℕ → String → String → String → Action ClientContact
create_contact workspace_id client_id label channel_type value = do
  i ← new_uuid
  let contact : ClientContact = record {
    id = i;
    workspace_id = workspace_id;
    client_id = client_id;
    label = label;
    channel_type = channel_type;
    value = value;
  }
  modify (λ d. record d { contacts = push contact d.contacts })
  pure contact

unfoldable pub list_for_client : ℕ → ℕ → Db → List ClientContact
list_for_client workspace_id client_id d =
    select (λ (c : ClientContact). c.workspace_id == workspace_id && c.client_id == client_id)
      d.contacts

unfoldable pub get_contact : ℕ → ℕ → Db → Option ClientContact
get_contact workspace_id contact_id d =
    find (λ (c : ClientContact). c.id == contact_id && c.workspace_id == workspace_id) d.contacts

-- `db.delete(contact)`
unfoldable pub delete_contact : ClientContact → Action (Unit {0})
delete_contact contact =
    modify λ d. record d {
      contacts = remove_where (λ (c : ClientContact). c.id == contact.id) d.contacts;
    }

module _ (sql : CrmQueries) where
  unfoldable pub list_organizations : ℕ → String → ℕ → ℕ → Db → List ClientOrganization × ℕ
  list_organizations workspace_id q limit offset d =
      let matching =
        select
          (λ (o : ClientOrganization).
            o.workspace_id == workspace_id
            && (str_eq q "" || (sql.contains q o.name || sql.contains q o.domain)))
          d.organizations in
      (take limit (drop offset (sql.organizations_by_name matching)), length matching)

  -- The ids of a request are uuids, so `if organization_id:` holds for every id given.
  unfoldable pub list_clients : ℕ → String → Option ℕ → ℕ → ℕ → Db → List Client × ℕ
  list_clients workspace_id q organization_id limit offset d =
      let matching =
        select
          (λ (c : Client).
            c.workspace_id == workspace_id
            && unless_none organization_id (holds c.organization_id)
            && (str_eq q ""
                || (sql.contains q c.full_name
                    || (sql.contains q c.primary_email || sql.contains q c.primary_phone))))
          d.clients in
      (take limit (drop offset (sql.clients_by_name matching)), length matching)
