-- ===== src/Authz/Grants.antt =====
-- After `ensure_system_roles` every system role holds its permissions.
use support_endpoint.Prelude.{
  ℕ, ◌≡◌, refl, ◌∙◌, ap, subst, String, true, some, List, [], ◌∷◌, any, any-append, All, All-map,
  str_eq, eq_iff, Bool-cases, inl, inr, arith,
}
use support_endpoint.Models.{Role, Permission}
use support_endpoint.Session.{Session, ok}
use support_endpoint.Authz.Permissions.{system_role_permissions}
use support_endpoint.Authz.Roles.{
  Ids, get_role_by_name, get_permission_by_code, has_grant, lookup_id, ensure_permissions,
  grant_each, ensure_roles, collect_codes, ensure_system_roles,
}
use support_endpoint.Authz.Seeding.{
  Seeds, Seeds-refl, Seeds-trans, permission_or_new_lem, role_or_new_lem, grant_lem,
}

-- The dict leads from the code to the permission that has it.
abbrev Leads : Ids → Session → String → Type 0
Leads ids s code =
    (p : Permission) × (get_permission_by_code code s.work ≡ some p)
    × (lookup_id code ids ≡ some p.id)

-- The role is granted the permission with the code.
abbrev pub Holds : ℕ → Session → String → Type 0
Holds role s code =
    (p : Permission) × (get_permission_by_code code s.work ≡ some p)
    × (has_grant role p.id s.work ≡ true)

Leads-later :
    (ids : Ids) (s s' : Session) (code : String) → Seeds s s' → Leads ids s code → Leads ids s' code
Leads-later ids s s' code grown h = (h.0, grown.permissions code h.0 h.1, h.2)

Holds-later :
    (role : ℕ) (s s' : Session) (code : String)
    → Seeds s s'
    → Holds role s code
    → Holds role s' code
Holds-later role s s' code grown h =
    (h.0, grown.permissions code h.0 h.1, grown.grants role h.0.id h.2)

ensure_permissions_lem :
    (codes : List String) (s : Session)
    → (ids : Ids) × (s' : Session) × (ensure_permissions codes s ≡ (ok ids, s'))
      × Seeds s s'
      × ((code : String) → any (str_eq code) codes ≡ true → Leads ids s' code)
unfolding ensure_permissions any lookup_id
ensure_permissions_lem [] s = ([], s, refl, Seeds-refl s, λ code h. absurd (cc))
ensure_permissions_lem (c ∷ cs) s =
    let (p, t, first, grown, found) = permission_or_new_lem c s in
    let (ids, u, rest, more, leads) = ensure_permissions_lem cs t in
    (
      (c, p.id) ∷ ids,
      u,
      rw (first, rest) refl,
      Seeds-trans s t u grown more,
      λ code h. elim (Bool-cases (str_eq c code)) [
        | inl e ↦
            let same : c ≡ code = (eq_iff c code).0 e in
            (
              p,
              more.permissions code p
                  (subst (λ x. get_permission_by_code x t.work ≡ some p) same found),
              rw e refl,
            )
        | inr e ↦
            let (q, known, index) =
              leads code (ground (arith, h, e, eq_iff c code, eq_iff code c)) in
            (q, known, rw e index)
      ],
    )

grant_each_lem :
    (role : ℕ) (ids : Ids) (codes : List String) (s : Session)
    → All (Leads ids s) codes
    → (s' : Session) × (grant_each role ids codes s ≡ (ok tt, s'))
      × Seeds s s'
      × All (Holds role s') codes
unfolding grant_each
grant_each_lem role ids [] s h = (s, refl, Seeds-refl s, tt)
grant_each_lem role ids (c ∷ cs) s h =
    let (p, known, index) = h.0 in
    let (t, first, grown, granted) = grant_lem role p.id s in
    let (u, rest, more, holds) =
      grant_each_lem role ids cs t (All-map cs (λ x. Leads-later ids s t x grown) h.1) in
    (
      u,
      rw (index, first, rest) refl,
      Seeds-trans s t u grown more,
      (Holds-later role t u c more (p, grown.permissions c p known, granted), holds),
    )

-- The role with the name holds the codes, and the dict leads to it.
abbrev pub Filled : Ids → Session → String × List String → Type 0
Filled ids s row =
    (r : Role) × (get_role_by_name row.0 s.work ≡ some r)
    × (lookup_id row.0 ids ≡ some r.id)
    × All (Holds r.id s) row.1

Filled-cons :
    (name : String) (r : Role) (ids : Ids) (s : Session) (row : String × List String)
    → get_role_by_name name s.work ≡ some r
    → Filled ids s row
    → Filled ((name, r.id) ∷ ids) s row
unfolding lookup_id
Filled-cons name r ids s row found (q, known, index, holds) =
    elim (Bool-cases (str_eq name row.0)) [
      | inl e ↦
          let same : name ≡ row.0 = (eq_iff name row.0).0 e in
          let role : r ≡ q =
            ground (arith, subst (λ x. get_role_by_name x s.work ≡ some r) same found, known) in
          (q, known, rw e (ap some (ap (λ (x : Role). x.id) role)), holds)
      | inr e ↦ (q, known, rw e index, holds)
    ]

abbrev LeadAll : Ids → Session → String × List String → Type 0
LeadAll ids s row = All (Leads ids s) row.1

ensure_roles_lem :
    (ids : Ids) (rows : List (String × List String)) (s : Session)
    → All (LeadAll ids s) rows
    → (roles : Ids) × (s' : Session) × (ensure_roles ids rows s ≡ (ok roles, s'))
      × Seeds s s'
      × All (Filled roles s') rows
unfolding ensure_roles lookup_id
ensure_roles_lem ids [] s h = ([], s, refl, Seeds-refl s, tt)
ensure_roles_lem ids ((name, codes) ∷ rows) s h =
    let (r, t, first, grown, found) = role_or_new_lem name s in
    let (u, given, more, holds) =
      grant_each_lem r.id ids codes t (All-map codes (λ x. Leads-later ids s t x grown) h.0) in
    let so_far = Seeds-trans s t u grown more in
    let (roles, v, rest, last, filled) =
      ensure_roles_lem ids rows u
        (All-map rows (λ row. All-map row.1 (λ x. Leads-later ids s u x so_far)) h.1) in
    let known = last.roles name r (more.roles name r found) in
    (
      (name, r.id) ∷ roles,
      v,
      rw (first, given, rest) refl,
      Seeds-trans s u v so_far last,
      (
        (
          r,
          known,
          rw ((eq_iff name name).1 refl) refl,
          All-map codes (λ x. Holds-later r.id u v x last) holds,
        ),
        All-map rows (λ row. Filled-cons name r roles v row known) filled,
      ),
    )

self_listed : (xs : List String) → All (λ x. any (str_eq x) xs ≡ true) xs
unfolding any
self_listed [] = tt
self_listed (x ∷ xs) =
    (rw ((eq_iff x x).1 refl) refl, All-map xs (λ y h. ground (arith, h)) (self_listed xs))

-- Every code of a row is collected.
collect_codes-listed :
    (rows : List (String × List String))
    → All (λ row. All (λ code. any (str_eq code) (collect_codes rows) ≡ true) row.1) rows
unfolding collect_codes
collect_codes-listed [] = tt
collect_codes-listed ((name, codes) ∷ rows) = (
  All-map codes (λ x h. ground (arith, h, any-append (str_eq x) codes (collect_codes rows)))
      (self_listed codes),
  All-map rows
      (λ row.
        All-map row.1 (λ x h. ground (arith, h, any-append (str_eq x) codes (collect_codes rows))))
      (collect_codes-listed rows),
)

-- The iteration over a set gives its members and no others.
abbrev pub IsSetOrder : (List String → List String) → Type 0
IsSetOrder set_of = (xs : List String) (x : String) → any (str_eq x) (set_of xs) ≡ any (str_eq x) xs

-- The seeding ends, adds only roles, permissions and grants, takes nothing away, and gives every
-- system role every permission that it should have.
pub ensure_system_roles_lem :
    (set_of : List String → List String) (s : Session)
    → IsSetOrder set_of
    → (ids : Ids) × (s' : Session) × (ensure_system_roles set_of s ≡ (ok ids, s'))
      × Seeds s s'
      × All (Filled ids s') system_role_permissions
unfolding ensure_system_roles
ensure_system_roles_lem set_of s order =
    let codes = collect_codes system_role_permissions in
    let (ids, t, first, grown, leads) = ensure_permissions_lem (set_of codes) s in
    let (roles, u, second, more, filled) = ensure_roles_lem ids system_role_permissions t (
      All-map system_role_permissions
        (λ row. All-map row.1 (λ code h. leads code (order codes code ∙ h)))
        (collect_codes-listed system_role_permissions)) in
    (roles, u, rw (first, second) refl, Seeds-trans s t u grown more, filled)
