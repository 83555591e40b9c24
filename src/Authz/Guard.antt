-- ===== src/Authz/Guard.antt =====
-- authz/deps.py: deny by default, and no disclosure of a workspace's existence.
use support_endpoint.Prelude.{
  ℕ, String, ◌≡◌, refl, sym, ap, subst, ◌↔◌, ◌⊎◌, inl, inr, Bool, true, false, ◌&&◌, some, List, [],
  ◌∷◌, Option-cases, Bool-cases, arith, any, any-true_iff, Any, Any-iff, select, map, ◌==◌, str_eq,
  find_sound, eq_iff,
}
use support_endpoint.Models.{Permission, RolePermission, WorkspaceMembership}
use support_endpoint.Session.{
  Db, Session, Result, ok, err, Error, not_found, Action, ◌>>=◌, request,
}
use support_endpoint.Authz.{has_code, permission_codes_for_role, get_membership, require_permission}

-- The role has a row of `role_permissions` for a permission with the code.
abbrev pub IsGranted : String → ℕ → Db → Type 0
IsGranted code role_id d =
    Any
      (λ (p : Permission).
        (p.code ≡ code)
        × Any (λ (g : RolePermission). (g.permission_id ≡ p.id) × (g.role_id ≡ role_id))
            d.role_permissions)
      d.permissions

abbrev Grants : ℕ → Permission → RolePermission → Type 0
Grants role_id p g = (g.permission_id ≡ p.id) × (g.role_id ≡ role_id)

-- `RolePermission.permission_id == Permission.id, RolePermission.role_id == role_id`
abbrev is_grant : ℕ → Permission → RolePermission → Bool
is_grant role_id p g = g.permission_id == p.id && g.role_id == role_id

grant_iff :
    (p : Permission) (role_id : ℕ) (gs : List RolePermission)
    → (any (λ (g : RolePermission). g.permission_id == p.id && g.role_id == role_id) gs ≡ true)
      ↔ Any (λ (g : RolePermission). (g.permission_id ≡ p.id) × (g.role_id ≡ role_id)) gs
grant_iff p role_id gs =
    let test : RolePermission → Bool = λ g. g.permission_id == p.id && g.role_id == role_id in
    let pointwise =
      Any-iff {P = λ g. test g ≡ true} {Q = λ g. (g.permission_id ≡ p.id) × (g.role_id ≡ role_id)}
        gs (λ g. ground arith) in
    (λ h. pointwise.0 ((any-true_iff test gs).0 h), λ h. (any-true_iff test gs).1 (pointwise.1 h))

-- A code is found among the codes of the selected permissions exactly if one of them carries it.
any-map-select_iff :
    (code : String) (q : Permission → Bool) (ps : List Permission)
    → (any (str_eq code) (map (λ (p : Permission). p.code) (select q ps)) ≡ true)
      ↔ Any (λ (p : Permission). (p.code ≡ code) × (q p ≡ true)) ps
unfolding any select
any-map-select_iff code q [] = (λ h. cc, λ h. absurd h.lower)
any-map-select_iff code q (p ∷ ps) =
    let ih = any-map-select_iff code q ps in
    elim (Bool-cases (q p)) [
      | inr out ↦ rw out (λ h. inr (ih.0 h), λ h. elim h [ inl e ↦ cc | inr m ↦ ih.1 m ])
      | inl kept ↦ rw kept (elim (Bool-cases (str_eq code p.code)) [
        | inl same ↦ (λ h. inl (sym ((eq_iff code p.code).0 same), refl), λ h. rw same)
        | inr other ↦
            rw other
              (λ h. inr (ih.0 h), λ h. elim h [ inl e ↦ absurd (clash e.0 other) | inr m ↦ ih.1 m ])
      ])
    ]
  where
    clash : p.code ≡ code → str_eq code p.code ≡ false → ⊥
    clash e h = ground (arith, eq_iff code p.code)

pub has_code_iff :
    (code : String) (role_id : ℕ) (d : Db)
    → (has_code code (permission_codes_for_role role_id d) ≡ true) ↔ IsGranted code role_id d
unfolding has_code permission_codes_for_role
has_code_iff code role_id d =
    let found = any-map-select_iff code _ d.permissions in
    let pointwise =
      Any-iff {P = λ p. (p.code ≡ code) × (any (is_grant role_id p) d.role_permissions ≡ true)}
        {Q = λ p. (p.code ≡ code) × Any (Grants role_id p) d.role_permissions} d.permissions
        (λ p. (
          λ h. (h.0, (grant_iff p role_id d.role_permissions).0 h.1),
          λ h. (h.0, (grant_iff p role_id d.role_permissions).1 h.1),
        )) in
    (λ h. pointwise.0 (found.0 h), λ h. found.1 (pointwise.1 h))

abbrev IsGrantedTo : Session → String → WorkspaceMembership → Type 0
IsGrantedTo s code m = IsGranted code m.role_id s.work

-- The guard accepts exactly a member whose role has the permission, and hands on the membership.
-- Whatever else is the case, the answer is the one 404 that a workspace which does not exist
-- gives. It writes nothing.
pub require_permission_lem :
    (code : String) (w user : ℕ) (s : Session)
    → ((m : WorkspaceMembership)
        → (require_permission code w user s ≡ (ok m, s))
          ↔ ((get_membership w user s.work ≡ some m) × IsGranted code m.role_id s.work))
      × (((m : WorkspaceMembership)
            → ¬ ((get_membership w user s.work ≡ some m) × IsGranted code m.role_id s.work))
          → require_permission code w user s ≡ (err (not_found "Workspace not found"), s))
unfolding require_permission
require_permission_lem code w user s = elim (Option-cases (get_membership w user s.work)) [
  | inl missing ↦ rw missing (λ m. (λ h. cc, λ h. cc), λ h. refl)
  | inr (m, found) ↦
      let granted = has_code_iff code m.role_id s.work in
      rw found (elim (Bool-cases (has_code code (permission_codes_for_role m.role_id s.work))) [
        | inl held ↦ rw held (
          λ m'. (
            λ h. let e : m ≡ m' = cc in (ap some e, subst (IsGrantedTo s code) e (granted.0 held)),
            λ h.
                let e : m ≡ m' = cc in
                ap {B = Result WorkspaceMembership × Session} (λ x. (ok x, s)) e,
          ),
          λ h. absurd (h m (refl, granted.0 held)),
        )
        | inr lacking ↦ rw lacking (
          λ m'. (
            λ h. cc,
            λ h.
                let e : m' ≡ m = cc in
                let held = granted.1 (subst (IsGrantedTo s code) e h.1) in cc,
          ),
          λ h. refl,
        )
      ])
]

-- The two ways in which the guard ends.
pub require_permission-cases :
    (code : String) (w user : ℕ) (s : Session)
    → ((m : WorkspaceMembership) × (get_membership w user s.work ≡ some m)
        × IsGranted code m.role_id s.work
        × (require_permission code w user s ≡ (ok m, s)))
      ⊎ (require_permission code w user s ≡ (err (not_found "Workspace not found"), s))
unfolding require_permission
require_permission-cases code w user s = elim (Option-cases (get_membership w user s.work)) [
  | inl missing ↦ inr (rw missing)
  | inr (m, found) ↦
      elim (Bool-cases (has_code code (permission_codes_for_role m.role_id s.work))) [
        | inl held ↦ inl (m, found, (has_code_iff code m.role_id s.work).0 held, rw (found, held))
        | inr lacking ↦ inr (rw (found, lacking))
      ]
]

-- A route is its service behind the guard, which changes nothing when it refuses.
pub guarded_keeps :
    {A : Type 0} (P : Result A × Session → Type 0) (code : String) (w user : ℕ)
    (f : WorkspaceMembership → Action A) (s : Session)
    → ((e : Error) → P (err e, record s { work = s.stored }))
    → ((m : WorkspaceMembership)
        → get_membership w user s.stored ≡ some m
        → IsGranted code m.role_id s.stored
        → P (request (f m) s))
    → P (request (require_permission code w user >>= f) s)
unfolding request
guarded_keeps P code w user f s denied allowed =
    elim (require_permission-cases code w user (record s { work = s.stored })) [
      | inl (m, found, held, passed) ↦ rw passed (allowed m found held)
      | inr refused ↦ rw refused (denied (not_found "Workspace not found"))
    ]

pub get_membership-user :
    (w user : ℕ) (m : WorkspaceMembership) (d : Db)
    → get_membership w user d ≡ some m
    → m.user_id ≡ user
unfolding get_membership
get_membership-user w user m d e =
    let sound =
      find_sound (λ (x : WorkspaceMembership). x.workspace_id == w && x.user_id == user)
        d.memberships m e in
    ground arith
