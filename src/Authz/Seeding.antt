-- ===== src/Authz/Seeding.antt =====
-- What the steps of `ensure_system_roles` add.
use support_endpoint.Prelude.{
  ℕ, ◌+◌, ◌≤◌, ◌≡◌, refl, ◌∙◌, String, true, ◌&&◌, some, [], ◌∷◌, push, find-append_some, find-push,
  any-push, any-push_new, ◌==◌, str_eq, eq_iff, Option-cases, Bool-cases, inl, inr, arith,
}
use support_endpoint.Models.{Role, Permission, RolePermission}
use support_endpoint.Session.{Db, Session, ok}
use support_endpoint.Authz.Roles.{
  get_role_by_name, get_permission_by_code, has_grant, role_or_new, permission_or_new, grant,
}

-- The tables that the seeding leaves alone.
abbrev pub others : Db → Db
others d = record d { roles = []; permissions = []; role_permissions = [] }

-- What was there stays, and nothing but roles, permissions and grants is added.
pub record Seeds (s s' : Session) : Type 0 where
  pub permissions :
      (code : String) (p : Permission)
      → get_permission_by_code code s.work ≡ some p
      → get_permission_by_code code s'.work ≡ some p
  pub roles :
      (name : String) (r : Role)
      → get_role_by_name name s.work ≡ some r
      → get_role_by_name name s'.work ≡ some r
  pub grants : (r p : ℕ) → has_grant r p s.work ≡ true → has_grant r p s'.work ≡ true
  pub rest : others s'.work ≡ others s.work
  pub stored : s'.stored ≡ s.stored
  pub instant : s'.now ≡ s.now
  pub later : s.next_id ≤ s'.next_id

pub Seeds-refl : (s : Session) → Seeds s s
Seeds-refl s = record {
  permissions = λ code p h. h;
  roles = λ name r h. h;
  grants = λ r p h. h;
  rest = refl;
  stored = refl;
  instant = refl;
  later = omega arith;
}

pub Seeds-trans : (s t u : Session) → Seeds s t → Seeds t u → Seeds s u
Seeds-trans s t u a b = record {
  permissions = λ code p h. b.permissions code p (a.permissions code p h);
  roles = λ name r h. b.roles name r (a.roles name r h);
  grants = λ r p h. b.grants r p (a.grants r p h);
  rest = b.rest ∙ a.rest;
  stored = b.stored ∙ a.stored;
  instant = b.instant ∙ a.instant;
  later = omega (arith, a.later, b.later);
}

-- The permission with the code, which is made if there is none.
pub permission_or_new_lem :
    (code : String) (s : Session)
    → (p : Permission) × (s' : Session) × (permission_or_new code
          (get_permission_by_code code s.work)
          s
        ≡ (ok p, s'))
      × Seeds s s'
      × (get_permission_by_code code s'.work ≡ some p)
unfolding permission_or_new get_permission_by_code get_role_by_name has_grant
permission_or_new_lem code s = elim (Option-cases (get_permission_by_code code s.work)) [
  | inr (p, e) ↦ (p, s, rw e refl, Seeds-refl s, e)
  | inl e ↦
      let p : Permission = record { id = s.next_id; code = code; description = "" } in
      (
        p,
        record s {
          work = record s.work { permissions = push p s.work.permissions };
          next_id = s.next_id + 1;
        },
        rw e refl,
        record {
          permissions = λ c x h.
              find-append_some (λ (y : Permission). str_eq y.code c) s.work.permissions (p ∷ []) x
                h;
          roles = λ name r h. h;
          grants = λ r x h. h;
          rest = refl;
          stored = refl;
          instant = refl;
          later = omega arith;
        },
        find-push (λ (y : Permission). str_eq y.code code) p s.work.permissions e
            ((eq_iff code code).1 refl),
      )
]

pub role_or_new_lem :
    (name : String) (s : Session)
    → (r : Role) × (s' : Session) × (role_or_new name (get_role_by_name name s.work) s ≡ (ok r, s'))
      × Seeds s s'
      × (get_role_by_name name s'.work ≡ some r)
unfolding role_or_new get_permission_by_code get_role_by_name has_grant
role_or_new_lem name s = elim (Option-cases (get_role_by_name name s.work)) [
  | inr (r, e) ↦ (r, s, rw e refl, Seeds-refl s, e)
  | inl e ↦
      let r : Role = record { id = s.next_id; name = name; description = ""; is_system = true } in
      (
        r,
        record s { work = record s.work { roles = push r s.work.roles }; next_id = s.next_id + 1 },
        rw e refl,
        record {
          permissions = λ c x h. h;
          roles =
              λ n x h. find-append_some (λ (y : Role). str_eq y.name n) s.work.roles (r ∷ []) x h;
          grants = λ i x h. h;
          rest = refl;
          stored = refl;
          instant = refl;
          later = omega arith;
        },
        find-push (λ (y : Role). str_eq y.name name) r s.work.roles e ((eq_iff name name).1 refl),
      )
]

pub grant_lem :
    (role permission : ℕ) (s : Session)
    → (s' : Session) × (grant role permission s ≡ (ok tt, s'))
      × Seeds s s'
      × (has_grant role permission s'.work ≡ true)
unfolding grant get_permission_by_code get_role_by_name has_grant
grant_lem role permission s = elim (Bool-cases (has_grant role permission s.work)) [
  | inl e ↦ (s, rw e refl, Seeds-refl s, e)
  | inr e ↦
      let row : RolePermission = record {
        id = s.next_id;
        role_id = role;
        permission_id = permission;
      } in
      (
        record s {
          work = record s.work { role_permissions = push row s.work.role_permissions };
          next_id = s.next_id + 1;
        },
        rw e refl,
        record {
          permissions = λ c x h. h;
          roles = λ n x h. h;
          grants = λ r p h.
              any-push (λ (g : RolePermission). g.role_id == r && g.permission_id == p) row
                s.work.role_permissions h;
          rest = refl;
          stored = refl;
          instant = refl;
          later = omega arith;
        },
        any-push_new (λ (g : RolePermission). g.role_id == role && g.permission_id == permission)
            row s.work.role_permissions (ground arith),
      )
]
