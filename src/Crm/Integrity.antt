-- ===== src/Crm/Integrity.antt =====
-- What a request to update a client, and one to delete a contact, does on each of its branches.
use support_endpoint.Prelude.{
  IsGiven, or_keep-IsGiven, ℕ, ◌≡◌, refl, true, false, ◌&&◌, Option, none, some, List, arith, inl,
  inr, Option-cases, Bool-cases, find, find_sound, find-modify_where, find-modify_where_id,
  modify_where, remove_where, ◌==◌, is_some, ◌⊎◌, [], ◌∷◌,
}
use support_endpoint.Models.{Client, ClientContact}
use support_endpoint.Session.{Db, Session, Result, ok, err, Error, not_found, validation, request}
use support_endpoint.Ticket.Repo.{get_client as find_client}
use support_endpoint.Crm.Repo.{get_organization, get_contact}
use support_endpoint.Crm.Service.{
  ClientUpdateRequest, revise_client, update_client, validate_organization, delete_contact,
}

-- The organization that is named, if one is, is one of the workspace.
abbrev pub OrganizationHolds : ℕ → Option ℕ → Db → Type 0
OrganizationHolds w none d = Unit
OrganizationHolds w (some i) d = is_some (get_organization w i d) ≡ true

-- The client after an update: each field by itself, by the field of the request that names it.
pub record IsUpdated (payload : ClientUpdateRequest) (old new : Client) : Type 0 where
  pub id : new.id ≡ old.id
  pub workspace_id : new.workspace_id ≡ old.workspace_id
  pub full_name : IsGiven payload.full_name old.full_name new.full_name
  pub primary_email : IsGiven payload.primary_email old.primary_email new.primary_email
  pub primary_phone : IsGiven payload.primary_phone old.primary_phone new.primary_phone
  pub notes : IsGiven payload.notes old.notes new.notes
  pub is_active : IsGiven payload.is_active old.is_active new.is_active
  pub no_organization : payload.organization_id ≡ none → new.organization_id ≡ old.organization_id
  pub organization : (o : ℕ) → payload.organization_id ≡ some o → new.organization_id ≡ some o

-- All tables but those of the clients and of the audit are the same.
abbrev pub SameTables : Db → Db → Type 0
SameTables d d' =
    record d' { clients = []; audit_events = [] } ≡ record d { clients = []; audit_events = [] }

-- How an update ends. It succeeds when the workspace has the client and the organization that the
-- request names, and then the answer is the stored client, with the fields that were given; no
-- client with another id changed, and no table but those of the clients and of the audit. Else
-- nothing changed.
abbrev pub Updates : ℕ → ℕ → ClientUpdateRequest → Session → Result Client × Session → Type 0
Updates w i payload s (ok client, s') =
    (old : Client) × (find_client w i s.stored ≡ some old)
    × OrganizationHolds w payload.organization_id s.stored
    × IsUpdated payload old client
    × (find_client w i s'.stored ≡ some client)
    × ((w' j : ℕ) → (j == i) ≡ false → find_client w' j s'.stored ≡ find_client w' j s.stored)
    × SameTables s.stored s'.stored
Updates w i payload s (err e, s') =
    ((old : Client)
      → find_client w i s.stored ≡ some old
      → OrganizationHolds w payload.organization_id s.stored
      → ⊥)
    × (s'.stored ≡ s.stored)

revise_client-IsUpdated :
    (payload : ClientUpdateRequest) (old : Client)
    → IsUpdated payload old (revise_client payload old)
revise_client-IsUpdated payload old = record {
  id = refl;
  workspace_id = refl;
  full_name = or_keep-IsGiven payload.full_name old.full_name;
  primary_email = or_keep-IsGiven payload.primary_email old.primary_email;
  primary_phone = or_keep-IsGiven payload.primary_phone old.primary_phone;
  notes = or_keep-IsGiven payload.notes old.notes;
  is_active = or_keep-IsGiven payload.is_active old.is_active;
  no_organization = λ e. rw e refl;
  organization = λ o e. rw e refl;
}

find_client_self :
    (w i : ℕ) (payload : ClientUpdateRequest) (old : Client) (xs : List Client)
    → find (λ (c : Client). c.id == i && c.workspace_id == w) xs ≡ some old
    → find
        (λ (c : Client). c.id == i && c.workspace_id == w)
        (modify_where (λ (c : Client). c.id == old.id) (revise_client payload) xs)
      ≡ some (revise_client payload old)
find_client_self w i payload old xs h = ground (
  arith,
  find_sound (λ (c : Client). c.id == i && c.workspace_id == w) xs old h,
  find-modify_where (λ (c : Client). c.id == i && c.workspace_id == w)
      (λ (c : Client). c.id == old.id) (revise_client payload) xs (λ x. refl),
)

find_client-other :
    (w i w' j : ℕ) (payload : ClientUpdateRequest) (old : Client) (xs : List Client)
    → find (λ (c : Client). c.id == i && c.workspace_id == w) xs ≡ some old
    → (j == i) ≡ false
    → find
        (λ (c : Client). c.id == j && c.workspace_id == w')
        (modify_where (λ (c : Client). c.id == old.id) (revise_client payload) xs)
      ≡ find (λ (c : Client). c.id == j && c.workspace_id == w') xs
find_client-other w i w' j payload old xs h other =
    find-modify_where_id (λ (c : Client). c.id == j && c.workspace_id == w')
      (λ (c : Client). c.id == old.id) (revise_client payload) xs (λ x. refl)
      (λ x picked.
        ground (arith, find_sound (λ (c : Client). c.id == i && c.workspace_id == w) xs old h))

validate_organization_lem :
    (w : ℕ) (o : Option ℕ) (s : Session)
    → (OrganizationHolds w o s.work × (validate_organization w o s ≡ (ok tt, s)))
      ⊎ ((e : Error) × ¬ OrganizationHolds w o s.work × (validate_organization w o s ≡ (err e, s)))
unfolding validate_organization
validate_organization_lem w none s = inl (tt, refl)
validate_organization_lem w (some i) s = elim (Option-cases (get_organization w i s.work)) [
  | inl e ↦ inr (
    validation "organization_id does not refer to an organization in this workspace",
    (λ h. ground arith),
    rw e refl,
  )
  | inr (c, e) ↦ inl (rw e refl, rw e refl)
]

-- A request to update a client succeeds exactly when its workspace has the client and the
-- organization that the request names. Then the answer is the stored client, each of its fields
-- being the one that was given, if one was, or else as before; no client with another id changes,
-- and no table but those of the clients and of the audit. Else nothing changes.
pub update_client-Updates :
    (w actor i : ℕ) (payload : ClientUpdateRequest) (s : Session)
    → Updates w i payload s (request (update_client w actor i payload) s)
unfolding update_client request find_client
update_client-Updates w actor i payload s = elim (Option-cases (find_client w i s.stored)) [
  | inl e ↦ rw e ((λ old h o. ground arith), refl)
  | inr (old, e) ↦
      elim (validate_organization_lem w payload.organization_id (record s { work = s.stored })) [
        | inl (o, v) ↦
            rw (e, v)
              (
                old,
                e,
                o,
                revise_client-IsUpdated payload old,
                find_client_self w i payload old s.stored.clients e,
                (λ w' j. find_client-other w i w' j payload old s.stored.clients e),
                refl,
              )
        | inr (x, n, v) ↦ rw (e, v) ((λ _ _ o. n o), refl)
      ]
]

-- How the deletion of a contact ends: with the contact, which the client had, gone, and the
-- contacts with other ids as they were; or with a 404, if the client has no such contact.
abbrev pub Deletes : ℕ → ℕ → ℕ → Session → Result (Unit {0}) × Session → Type 0
Deletes w client_id k s (ok u, s') =
    (contact : ClientContact) × (get_contact w k s.stored ≡ some contact)
    × (contact.client_id ≡ client_id)
    × ((w' : ℕ) → get_contact w' k s'.stored ≡ none)
    × ((w' j : ℕ) → (j == k) ≡ false → get_contact w' j s'.stored ≡ get_contact w' j s.stored)
Deletes w client_id k s (err e, s') =
    (e ≡ not_found "Contact not found")
    × ((contact : ClientContact)
        → get_contact w k s.stored ≡ some contact
        → contact.client_id ≡ client_id
        → ⊥)
    × (s'.stored ≡ s.stored)

find-removed :
    (w' j k r : ℕ) (xs : List ClientContact)
    → r ≡ k
    → (find
          (λ (c : ClientContact). c.id == k && c.workspace_id == w')
          (remove_where (λ (c : ClientContact). c.id == r) xs)
        ≡ none)
      × ((j == k) ≡ false
          → find
              (λ (c : ClientContact). c.id == j && c.workspace_id == w')
              (remove_where (λ (c : ClientContact). c.id == r) xs)
            ≡ find (λ (c : ClientContact). c.id == j && c.workspace_id == w') xs)
unfolding find remove_where
find-removed w' j k r [] a = (refl, λ h. refl)
find-removed w' j k r (x ∷ xs) a =
    let h = find-removed w' j k r xs a in (ground (arith, h), λ n. ground (arith, h))

found_id :
    (w k : ℕ) (contact : ClientContact) (xs : List ClientContact)
    → find (λ (c : ClientContact). c.id == k && c.workspace_id == w) xs ≡ some contact
    → contact.id ≡ k
found_id w k contact xs e =
    ground
      (arith, find_sound (λ (c : ClientContact). c.id == k && c.workspace_id == w) xs contact e)

-- A request to delete a contact succeeds exactly when the contact is one of the named client in the
-- workspace. Then no workspace finds a contact by its id, and contacts with other ids are as they
-- were; else the answer is a 404, and nothing changes.
pub delete_contact-Deletes :
    (w actor client_id k : ℕ) (s : Session)
    → Deletes w client_id k s (request (delete_contact w actor client_id k) s)
unfolding delete_contact request get_contact
delete_contact-Deletes w actor client_id k s = elim (Option-cases (get_contact w k s.stored)) [
  | inl e ↦ rw e (refl, (λ c h o. ground arith), refl)
  | inr (contact, e) ↦ elim (Bool-cases (contact.client_id == client_id)) [
    | inl o ↦
        rw (e, o)
          (
            contact,
            e,
            ground arith,
            (λ w'.
                (find-removed w' 0 k contact.id s.stored.contacts
                  (found_id w k contact s.stored.contacts e)).0),
            λ w' j n.
                (find-removed w' j k contact.id s.stored.contacts
                    (found_id w k contact s.stored.contacts e)).1
                  n,
          )
    | inr n ↦ rw (e, n) (refl, (λ c h o. ground arith), refl)
  ]
]
