-- ===== src/Auth/Owner.antt =====
-- What bootstrap_owner does.
use support_endpoint.Prelude.{
  ℕ, ◌+◌, ◌<◌, ◌≡◌, ◌≢◌, refl, ap, ◌∙◌, String, Bool, true, false, List, [], ◌∷◌, push, any, All,
  arith, Bool-cases, inl, inr, str_eq,
}
use support_endpoint.Models.{User, WorkspaceMembership}
use support_endpoint.Session.{Db, Session, Result, ok, err, conflict, request}
use support_endpoint.Authz.{get_membership, require_permission}
use support_endpoint.Authz.Permissions.{all_permissions, system_role_permissions}
use support_endpoint.Authz.Grants.{IsSetOrder, Holds, ensure_system_roles_lem}
use support_endpoint.Workspaces.Repo.{WorkspaceQueries, candidate}
use support_endpoint.Workspaces.Slugify.{slugify}
use support_endpoint.Workspaces.Slug.{create_workspace_lem, new_workspace}
use support_endpoint.Workspaces.Creation.{
  new_membership, is_member, no_member, new_member, create_membership_lem, guard_passes, All-at,
  Holds-IsGranted,
}
use support_endpoint.Auth.Repo.{create_user}
use support_endpoint.Auth.Service.{Security}
use support_endpoint.Auth.Bootstrap.{any_exists, bootstrap_owner}

no_user : (d : Db) → any_exists d ≡ false → d.users ≡ []
unfolding any_exists
no_user d h = empty_of d.users h
  where
    empty_of : (us : List User) → elim us [ [] ↦ false | u ∷ rest ↦ true ] ≡ false → us ≡ []
    empty_of [] h = refl
    empty_of (u ∷ us) h = cc

some_user : (d : Db) → any_exists d ≡ true → d.users ≢ []
unfolding any_exists
some_user d h e = filled d.users h e
  where
    filled : (us : List User) → elim us [ [] ↦ false | u ∷ rest ↦ true ] ≡ true → us ≢ []
    filled [] h e = cc
    filled (u ∷ us) h e = cc

abbrev new_user : ℕ → String → String → String → User
new_user i email password_hash full_name = record {
  id = i;
  email = email;
  password_hash = password_hash;
  full_name = full_name;
  is_active = true;
}

create_user_lem :
    (email password_hash full_name : String) (s : Session)
    → s.work.users ≡ []
    → create_user email password_hash full_name s ≡ (
      ok (new_user s.next_id email password_hash full_name),
      record s {
        work = record s.work { users = push (new_user s.next_id email password_hash full_name) [] };
        next_id = s.next_id + 1;
      },
    )
unfolding create_user any
create_user_lem email password_hash full_name s h = rw h refl

module _ (lib : Security) (queries : WorkspaceQueries) (set_of : List String → List String)
    (bootstrap_enabled : Bool) (email password full_name workspace_name : String) where
  -- How a request to bootstrap ends: with the first account, or with nothing stored.
  abbrev pub Bootstraps : Session → Result (User × ℕ) × Session → Type 0
  Bootstraps s (ok (user, w), s') =
      (bootstrap_enabled ≡ true)
      × (s.stored.users ≡ [])
      × (s'.stored.users ≡ user ∷ [])
      × (user.email ≡ lib.lower email)
      × ((code : String)
          → any (str_eq code) all_permissions ≡ true
          → (m : WorkspaceMembership) × ((request (require_permission code w user.id) s').0 ≡ ok m))
      × ((mail secret name place : String)
          → (request (bootstrap_owner lib queries set_of bootstrap_enabled mail secret name place)
              s').0
            ≡ err (conflict "Bootstrap has already been completed"))
  Bootstraps s (err e, s') =
      (bootstrap_enabled ≡ true → s.stored.users ≢ []) × (s'.stored ≡ s.stored)

  -- If memberships are of workspaces with ids below the supply, and the iteration over a set gives its
  -- members, a request to bootstrap succeeds exactly when bootstrap is enabled and there is no account.
  -- Then it makes one account with the email, whom whatever permission lets pass the guard of the new
  -- workspace, and every later such request is refused. A request that fails stores nothing.
  pub bootstrap_owner-Bootstraps :
      (s : Session)
      → IsSetOrder set_of
      → All (λ (m : WorkspaceMembership). m.workspace_id < s.next_id) s.stored.memberships
      → Bootstraps s (
          request
            (bootstrap_owner lib queries set_of bootstrap_enabled email password full_name
              workspace_name)
            s)
  unfolding request bootstrap_owner system_role_permissions get_membership
  bootstrap_owner-Bootstraps s order fresh = elim (Bool-cases bootstrap_enabled) [
    | inr off ↦ rw off (λ on. cc, refl)
    | inl on ↦ elim (Bool-cases (any_exists s.stored)) [
      | inl old ↦ rw (on, old) (λ _. some_user s.stored old, refl)
      | inr new ↦
          let opened : Session = record s { work = s.stored } in
          let (ids, t, seeded, grown, filled) = ensure_system_roles_lem set_of opened order in
          let nobody : t.work.users ≡ [] =
            ap (λ (d : Db). d.users) grown.rest ∙ no_user s.stored new in
          let owner = new_user t.next_id (lib.lower email) (lib.hash_password password) full_name in
          let made : Session = record t {
            work = record t.work { users = push owner [] };
            next_id = t.next_id + 1;
          } in
          let (suffix, created, beyond, free, least) =
            create_workspace_lem queries workspace_name made in
          let (role, known, index, holds) = filled.1.1.1.0 in
          let members : t.work.memberships ≡ s.stored.memberships =
            ap (λ (d : Db). d.memberships) grown.rest in
          let place = t.next_id + 1 in
          let unused : any (is_member place t.next_id) t.work.memberships ≡ false = rw members (
            no_member s.next_id place t.next_id s.stored.memberships (omega (arith, grown.later))
              fresh) in
          let m = new_membership (place + 1) place t.next_id role.id in
          let w =
            new_workspace place workspace_name
              (candidate (slugify queries.lower workspace_name) suffix) in
          let housed : Session = record made {
            work = record made.work { workspaces = push w t.work.workspaces };
            next_id = place + 1;
          } in
          rw
            (
              on,
              new,
              seeded,
              create_user_lem (lib.lower email) (lib.hash_password password) full_name t nobody,
              created,
              index,
              create_membership_lem place t.next_id role.id housed unused,
            )
            (
              refl,
              no_user s.stored new,
              refl,
              refl,
              λ code listed. (
                m,
                guard_passes code place t.next_id m _ _ _ (new_member m t.work.memberships unused) (
                    Holds-IsGranted role.id t code
                      (All-at (Holds role.id t) code all_permissions holds listed)),
              ),
              λ mail secret name place. refl,
            )
    ]
  ]
