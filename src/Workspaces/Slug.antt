-- ===== src/Workspaces/Slug.antt =====
-- The loop that looks for an unused slug ends, and a workspace is always created.
use support_endpoint.Prelude.{
  ℕ, zero, suc, ◌+◌, ◌<◌, ◌≤◌, ◌≡◌, ◌≢◌, refl, sym, ◌∙◌, ap, subst, String, Bool, true, false, some,
  List, [], ◌∷◌, arith, length, push, any, any-of_find, remove_where, ◌==◌, str_eq, eq_iff,
  Bool-cases, inl, inr,
}
use Prim.Native.String.{[] as empty, count, ◌++◌ as text_append}
use text.Mathlib.TextLemmas.{append_cancel_left, append-nil, length-append}
use support_endpoint.Models.{Workspace}
use support_endpoint.Session.{Db, Session, Result, ok, err}
use support_endpoint.Workspaces.Decimal.{str, str-injective}
use support_endpoint.Workspaces.Slugify.{slugify}
use support_endpoint.Workspaces.Repo.{
  WorkspaceQueries, get_by_slug, candidate, free_slug, create_workspace,
}

abbrev has_slug : String → Workspace → Bool
has_slug slug w = str_eq w.slug slug

length-remove_where :
    (slug : String) (ws : List Workspace)
    → (length (remove_where (has_slug slug) ws) ≤ length ws)
      × (any (has_slug slug) ws ≡ true → length (remove_where (has_slug slug) ws) < length ws)
unfolding remove_where any
length-remove_where slug [] = (omega arith, λ h. cc)
length-remove_where slug (w ∷ ws) =
    let h = length-remove_where slug ws in (ground (arith, h), λ k. ground (arith, h))

-- The removal of one slug does not matter to another.
any-remove_where :
    (slug other : String) (ws : List Workspace)
    → other ≢ slug
    → any (has_slug other) (remove_where (has_slug slug) ws) ≡ any (has_slug other) ws
unfolding remove_where any
any-remove_where slug other [] ne = refl
any-remove_where slug other (w ∷ ws) ne =
    ground (arith, any-remove_where slug other ws ne, eq_iff w.slug other, eq_iff w.slug slug)

module _ (base : String) where
  base-no_suffix : (x : String) → base ≢ text_append base (text_append "-" x)
  base-no_suffix x e =
      let h = append_cancel_left base empty (text_append "-" x) (append-nil base ∙ e) in
      let l = length-append "-" x in
      let z : 0 ≡ count (text_append "-" x) = ap count h in omega (arith, l, z)

  candidate-injective : (j k : ℕ) → candidate base j ≡ candidate base k → j ≡ k
  unfolding candidate
  candidate-injective j k e = elim (Bool-cases (j == 1)) [
    | inl a ↦ elim (Bool-cases (k == 1)) [
      | inl b ↦ ground arith
      | inr b ↦ absurd (base-no_suffix (str k) (rw (a, b) at e))
    ]
    | inr a ↦ elim (Bool-cases (k == 1)) [
      | inl b ↦ absurd (base-no_suffix (str j) (sym (rw (a, b) at e)))
      | inr b ↦
          str-injective j k
            (append_cancel_left "-" _ _ (append_cancel_left base _ _ (rw (a, b) at e)))
    ]
  ]

  -- A list shorter than the fuel leaves one of that many candidates unused.
  unused_candidate :
      (fuel k : ℕ) (ws : List Workspace)
      → length ws < fuel
      → (j : ℕ) × (k ≤ j) × (j < k + fuel) × (any (has_slug (candidate base j)) ws ≡ false)
  unused_candidate zero k ws lt = absurd (omega arith)
  unused_candidate (suc fuel) k ws lt = elim (Bool-cases (any (has_slug (candidate base k)) ws)) [
    | inl used ↦
        let (j, above, below, unused) =
          unused_candidate fuel (k + 1) (remove_where (has_slug (candidate base k)) ws)
            (omega (arith, lt, (length-remove_where (candidate base k) ws).1 used)) in
        (
          j,
          omega (arith, above),
          omega (arith, below),
          sym (
                any-remove_where (candidate base k) (candidate base j) ws
                  (λ e. omega (arith, above, candidate-injective j k e)))
              ∙ unused,
        )
    | inr unused ↦ (k, omega arith, omega arith, unused)
  ]

  later :
      (k j : ℕ) (ws : List Workspace)
      → k ≤ j
      → any (has_slug (candidate base k)) ws ≡ true
      → any (has_slug (candidate base j)) ws ≡ false
      → k + 1 ≤ j
  later k j ws above used unused = elim (Bool-cases (k == j)) [
    | inl e ↦
        let same : k ≡ j = ground arith in
        let both : any (has_slug (candidate base j)) ws ≡ true =
          subst (λ i. any (has_slug (candidate base i)) ws ≡ true) same used in
        ground arith
    | inr ne ↦ ground arith
  ]

  -- The loop from `k` on ends with the first candidate that no workspace has.
  abbrev FindsFrom : ℕ → ℕ → Db → Type 0
  FindsFrom k fuel d =
      (m : ℕ) × (k ≤ m)
      × (free_slug base fuel k d ≡ some (candidate base m))
      × (any (has_slug (candidate base m)) d.workspaces ≡ false)
      × ((i : ℕ) → k ≤ i → i < m → any (has_slug (candidate base i)) d.workspaces ≡ true)

  -- The loop finds an unused slug when one of the candidates within its fuel is unused.
  free_slug-finds :
      (fuel k j : ℕ) (d : Db)
      → k ≤ j
      → j < k + fuel
      → any (has_slug (candidate base j)) d.workspaces ≡ false
      → FindsFrom k fuel d
  unfolding free_slug get_by_slug
  free_slug-finds zero k j d above below unused = absurd (omega arith)
  free_slug-finds (suc fuel) k j d above below unused =
      let same = any-of_find (has_slug (candidate base k)) d.workspaces in
      elim (Bool-cases (any (has_slug (candidate base k)) d.workspaces)) [
        | inl used ↦
            let (m, beyond, found, free, least) =
              free_slug-finds fuel (k + 1) j d (later k j d.workspaces above used unused)
                (omega (arith, below)) unused in
            (
              m,
              omega (arith, beyond),
              rw (sym same, used) found,
              free,
              λ i from before. elim (Bool-cases (k == i)) [
                | inl e ↦
                    let equal : k ≡ i = ground arith in
                    subst (λ n. any (has_slug (candidate base n)) d.workspaces ≡ true) equal used
                | inr ne ↦ least i (ground arith) before
              ],
            )
        | inr free ↦
            (k, omega arith, rw (sym same, free) refl, free, λ i from before. absurd (omega arith))
      ]

-- The row that `create` inserts.
abbrev pub new_workspace : ℕ → String → String → Workspace
new_workspace i name slug = record { id = i; name = name; slug = slug }

-- What `create` does to the session, and the slug that it finds.
pub create_workspace_lem :
    (queries : WorkspaceQueries) (name : String) (s : Session)
    → (m : ℕ) × (create_workspace queries name s ≡ (
      ok (new_workspace s.next_id name (candidate (slugify queries.lower name) m)),
      record s {
        work = record s.work {
          workspaces =
              push
                (new_workspace s.next_id name (candidate (slugify queries.lower name) m))
                s.work.workspaces;
        };
        next_id = s.next_id + 1;
      },
    ))
      × (1 ≤ m)
      × (any (has_slug (candidate (slugify queries.lower name) m)) s.work.workspaces ≡ false)
      × ((i : ℕ)
          → 1 ≤ i
          → i < m
          → any (has_slug (candidate (slugify queries.lower name) i)) s.work.workspaces ≡ true)
unfolding create_workspace
create_workspace_lem queries name s =
    let base = slugify queries.lower name in
    let ws = s.work.workspaces in
    let (j, above, below, unused) = unused_candidate base (suc (length ws)) 1 ws (omega arith) in
    let (m, beyond, found, free, least) =
      free_slug-finds base (suc (length ws)) 1 j s.work above below unused in
    (m, rw (found, free) refl, beyond, free, least)

-- How the creation of a workspace ends: it is added with the name, and with the first of the slugs
-- for the name that no workspace has.
abbrev pub Creates : WorkspaceQueries → String → Session → Result Workspace × Session → Type 0
Creates queries name s (ok w, s') =
    (w.name ≡ name)
    × (s'.work.workspaces ≡ push w s.work.workspaces)
    × (any (has_slug w.slug) s.work.workspaces ≡ false)
    × (m : ℕ) × (1 ≤ m)
    × (w.slug ≡ candidate (slugify queries.lower name) m)
    × ((i : ℕ)
        → 1 ≤ i
        → i < m
        → any (has_slug (candidate (slugify queries.lower name) i)) s.work.workspaces ≡ true)
Creates queries name s (err e, s') = ⊥

-- Where the width of the column `slug` is not enforced, the creation of a workspace does not raise,
-- and its loop does not run out of fuel. It adds one workspace with the given name, and its slug is the first, of the slug of the name and that slug
-- with a suffix from 2 on, that no workspace has.
pub create_workspace-Creates :
    (queries : WorkspaceQueries) (name : String) (s : Session)
    → Creates queries name s (create_workspace queries name s)
create_workspace-Creates queries name s =
    let (m, ran, beyond, free, least) = create_workspace_lem queries name s in
    rw ran (refl, refl, free, m, beyond, refl, least)
