-- ===== src/Workspaces/Creation.antt =====
-- The user who creates a workspace administers it.
use support_endpoint.Prelude.{
  ℕ, ◌+◌, ◌<◌, ◌≤◌, ◌≡◌, refl, sym, ap, subst, String, Bool, true, false, ◌&&◌, some, List, [], ◌∷◌,
  push, find, find_sound, find-push, find-of_any, any, any-of_All, any-true_iff, All, All-map,
  Any-iff, Any-of_find, ◌==◌, str_eq, eq_iff, Bool-cases, inl, inr, arith,
}
use support_endpoint.Models.{Workspace, WorkspaceMembership, Permission, RolePermission}
use support_endpoint.Session.{Db, Session, Result, ok, err, request}
use support_endpoint.Authz.{get_membership, require_permission}
use support_endpoint.Authz.Guard.{IsGranted, require_permission_lem}
use support_endpoint.Authz.Permissions.{all_permissions, system_role_permissions}
use support_endpoint.Authz.Roles.{get_permission_by_code, has_grant}
use support_endpoint.Authz.Grants.{IsSetOrder, Holds, ensure_system_roles_lem}
use support_endpoint.Workspaces.Repo.{WorkspaceQueries, candidate, create_membership}
use support_endpoint.Workspaces.Slugify.{slugify}
use support_endpoint.Workspaces.Slug.{create_workspace_lem, new_workspace}
use support_endpoint.Workspaces.Service.{create_workspace_for_user}

-- A role that holds a code is granted it.
pub Holds-IsGranted :
    (role : ℕ) (s : Session) (code : String) → Holds role s code → IsGranted code role s.work
unfolding get_permission_by_code has_grant
Holds-IsGranted role s code (p, found, granted) =
    let test : RolePermission → Bool = λ g. g.role_id == role && g.permission_id == p.id in
    let row =
      (Any-iff {P = λ g. test g ≡ true} {Q = λ g. (g.permission_id ≡ p.id) × (g.role_id ≡ role)}
          s.work.role_permissions (λ g. ground arith)).0
        ((any-true_iff test s.work.role_permissions).0 granted) in
    Any-of_find _ (λ (x : Permission). str_eq x.code code) s.work.permissions p found
      (
        (eq_iff p.code code).0
            (find_sound (λ (x : Permission). str_eq x.code code) s.work.permissions p found),
        row,
      )

pub All-at :
    (P : String → Type 0) (x : String) (xs : List String)
    → All P xs
    → any (str_eq x) xs ≡ true
    → P x
unfolding any
All-at P x [] h k = absurd (cc)
All-at P x (y ∷ xs) h k = elim (Bool-cases (str_eq x y)) [
  | inl e ↦ subst P (sym ((eq_iff x y).0 e)) h.0
  | inr e ↦ All-at P x xs h.1 (rw e at k)
]

abbrev pub new_membership : ℕ → ℕ → ℕ → ℕ → WorkspaceMembership
new_membership i w user role = record { id = i; workspace_id = w; user_id = user; role_id = role }

abbrev pub is_member : ℕ → ℕ → WorkspaceMembership → Bool
is_member w user m = m.workspace_id == w && m.user_id == user

-- A workspace newer than every membership has no member.
pub no_member :
    (n w user : ℕ) (ms : List WorkspaceMembership)
    → n ≤ w
    → All (λ (m : WorkspaceMembership). m.workspace_id < n) ms
    → any (is_member w user) ms ≡ false
no_member n w user ms le h = any-of_All (is_member w user) ms (All-map ms (λ m k. ground arith) h)

pub new_member :
    (m : WorkspaceMembership) (ms : List WorkspaceMembership)
    → any (is_member m.workspace_id m.user_id) ms ≡ false
    → find (is_member m.workspace_id m.user_id) (push m ms) ≡ some m
new_member m ms h =
    find-push (is_member m.workspace_id m.user_id) m ms (find-of_any _ ms h) (ground arith)

pub create_membership_lem :
    (w user role : ℕ) (s : Session)
    → any (is_member w user) s.work.memberships ≡ false
    → create_membership w user role s ≡ (
      ok (new_membership s.next_id w user role),
      record s {
        work = record s.work {
          memberships = push (new_membership s.next_id w user role) s.work.memberships;
        };
        next_id = s.next_id + 1;
      },
    )
unfolding create_membership
create_membership_lem w user role s h = rw h refl

pub guard_passes :
    (code : String) (w user : ℕ) (m : WorkspaceMembership) (d : Db) (now next_id : ℕ)
    → get_membership w user d ≡ some m
    → IsGranted code m.role_id d
    → (request
        (require_permission code w user)
        (record { stored = d; work = d; now = now; next_id = next_id })).0
      ≡ ok m
unfolding request
guard_passes code w user m d now next_id found held =
    let s : Session = record { stored = d; work = d; now = now; next_id = next_id } in
    rw (((require_permission_lem code w user s).0 m).1 (found, held)) refl

-- How the creation of a workspace ends: the answer has the name, and whatever permission there is,
-- the guard of the new workspace lets the user pass.
abbrev pub Administers : ℕ → String → Result Workspace × Session → Type 0
Administers user name (ok w, s') =
    (w.name ≡ name)
    × ((code : String)
        → any (str_eq code) all_permissions ≡ true
        → (m : WorkspaceMembership) × ((request (require_permission code w.id user) s').0 ≡ ok m))
Administers user name (err e, s') = ⊥

-- Where the width of the column `slug` is not enforced, memberships are of workspaces with ids below
-- the supply, and the iteration over a set gives its members, the creation of a workspace does not
-- raise: the system roles are there afterwards, and the user may do in the new workspace whatever any
-- permission allows.
pub create_workspace_for_user-Administers :
    (queries : WorkspaceQueries) (set_of : List String → List String) (user : ℕ) (name : String)
    (s : Session)
    → IsSetOrder set_of
    → All (λ (m : WorkspaceMembership). m.workspace_id < s.next_id) s.stored.memberships
    → Administers user name (request (create_workspace_for_user queries set_of user name) s)
unfolding request create_workspace_for_user system_role_permissions get_membership
create_workspace_for_user-Administers queries set_of user name s order fresh =
    let opened : Session = record s { work = s.stored } in
    let (ids, t, seeded, grown, filled) = ensure_system_roles_lem set_of opened order in
    let (suffix, created, beyond, free, least) = create_workspace_lem queries name t in
    let (role, known, index, holds) = filled.1.1.1.0 in
    let members : t.work.memberships ≡ s.stored.memberships =
      ap (λ (d : Db). d.memberships) grown.rest in
    let unused : any (is_member t.next_id user) t.work.memberships ≡ false =
      rw members (no_member s.next_id t.next_id user s.stored.memberships grown.later fresh) in
    let m = new_membership (t.next_id + 1) t.next_id user role.id in
    let w = new_workspace t.next_id name (candidate (slugify queries.lower name) suffix) in
    let u : Session = record t {
      work = record t.work { workspaces = push w t.work.workspaces };
      next_id = t.next_id + 1;
    } in
    rw (seeded, created, index, create_membership_lem t.next_id user role.id u unused)
      (
        refl,
        λ code listed. (
          m,
          guard_passes code t.next_id user m _ _ _ (new_member m t.work.memberships unused) (
              Holds-IsGranted role.id t code
                (All-at (Holds role.id t) code all_permissions holds listed)),
        ),
      )
