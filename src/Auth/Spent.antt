-- ===== src/Auth/Spent.antt =====
-- Refresh tokens that no longer work, and the parts of services/auth_service.py that keep them so.
use support_endpoint.Prelude.{
  ℕ, ◌≡◌, refl, String, Bool, true, false, Option, none, some, List, [], ◌∷◌, arith, inl, inr,
  is_none, Bool-cases, find, find-append_some, find-modify_where, any, push, modify_where, str_eq,
  ◌==◌,
}
use support_endpoint.Models.{User, RefreshSession, Meta}
use support_endpoint.Session.{
  Db, Session, Result, ok, err, Error, Action, query, raise_if, or_raise, commit, ◌>>=◌,
}
use support_endpoint.Auth.Repo.{has_hash, create_session, create_user, revoke}
use support_endpoint.Audit.{record_event}

-- The session with this hash that a lookup finds is revoked.
abbrev pub IsSpent : String → List RefreshSession → Type 0
IsSpent h rows =
    (r : RefreshSession) × (find (has_hash h) rows ≡ some r) × (is_none r.revoked_at ≡ false)

abbrev pub revoke_row : ℕ → ℕ → List RefreshSession → List RefreshSession
revoke_row i now rows =
    modify_where (λ (r : RefreshSession). r.id == i) (λ r. record r { revoked_at = some now }) rows

pub IsSpent-push :
    (h : String) (row : RefreshSession) (rows : List RefreshSession)
    → IsSpent h rows
    → IsSpent h (push row rows)
IsSpent-push h row rows (r, f, e) = (r, find-append_some (has_hash h) rows (row ∷ []) r f, e)

pub IsSpent-revoke :
    (h : String) (i now : ℕ) (rows : List RefreshSession)
    → IsSpent h rows
    → IsSpent h (revoke_row i now rows)
IsSpent-revoke h i now rows (r, f, e) = elim (Bool-cases (r.id == i)) [
  | inl b ↦ (
    record r { revoked_at = some now },
    ground (
      arith,
      f,
      find-modify_where (has_hash h) (λ (x : RefreshSession). x.id == i)
          (λ x. record x { revoked_at = some now }) rows (λ x. refl),
    ),
    refl,
  )
  | inr b ↦ (
    r,
    ground (
      arith,
      f,
      find-modify_where (has_hash h) (λ (x : RefreshSession). x.id == i)
          (λ x. record x { revoked_at = some now }) rows (λ x. refl),
    ),
    e,
  )
]

-- The row that was just revoked is spent.
pub IsSpent-revoked :
    (h : String) (row : RefreshSession) (now : ℕ) (rows : List RefreshSession)
    → find (has_hash h) rows ≡ some row
    → IsSpent h (revoke_row row.id now rows)
IsSpent-revoked h row now rows f = (
  record row { revoked_at = some now },
  ground (
    arith,
    f,
    find-modify_where (has_hash h) (λ (x : RefreshSession). x.id == row.id)
        (λ x. record x { revoked_at = some now }) rows (λ x. refl),
  ),
  refl,
)

module _ (h : String) where
  -- The token is spent in the stored database and in the session's view of it.
  abbrev pub SpentIn : Session → Type 0
  SpentIn s = IsSpent h s.stored.sessions × IsSpent h s.work.sessions

  abbrev pub Keeps : {A : Type 0} → Action A → Type 0
  Keeps m = (s : Session) → SpentIn s → SpentIn (m s).1

  pub Keeps-bind :
      {A B : Type 0} (m : Action A) (f : A → Action B)
      → Keeps m
      → ((a : A) → Keeps (f a))
      → Keeps (m >>= f)
  Keeps-bind {A} {B} m f km kf s spent = bound (m s) (km s spent)
    where
      bound : (out : Result A × Session) → SpentIn out.1 → SpentIn (((λ _. out) >>= f) s).1
      bound (ok a, s') spent' = kf a s' spent'
      bound (err e, s') spent' = spent'

  pub Keeps-query : {A : Type 0} (f : Db → A) → Keeps (query f)
  Keeps-query f s spent = spent

  pub Keeps-raise_if : (b : Bool) (e : Error) → Keeps (raise_if b e)
  Keeps-raise_if true e s spent = spent
  Keeps-raise_if false e s spent = spent

  pub Keeps-or_raise : {A : Type 0} (o : Option A) (e : Error) → Keeps (or_raise o e)
  Keeps-or_raise none e s spent = spent
  Keeps-or_raise (some a) e s spent = spent

  pub Keeps-commit : Keeps commit
  Keeps-commit s spent = (spent.1, spent.1)

  pub Keeps-record_event :
      (action : String) (w u : Option ℕ) (kind : String) (i : Meta) (result : String)
      (metadata : List (String × Meta))
      → Keeps (record_event action w u kind i result metadata)
  unfolding record_event
  Keeps-record_event action w u kind i result metadata s spent = spent

  pub Keeps-create_session :
      (user_id : ℕ) (token_hash : String) (expires_at : ℕ) (agent ip : String)
      → Keeps (create_session user_id token_hash expires_at agent ip)
  unfolding create_session
  Keeps-create_session user_id token_hash expires_at agent ip s spent =
      elim (Bool-cases (any (has_hash token_hash) s.work.sessions)) [
        | inl e ↦ rw e spent
        | inr e ↦ rw e (spent.0, IsSpent-push h _ s.work.sessions spent.1)
      ]

  pub Keeps-create_user : (email hash name : String) → Keeps (create_user email hash name)
  unfolding create_user
  Keeps-create_user email hash name s spent =
      elim (Bool-cases (any (λ (u : User). str_eq u.email email) s.work.users)) [
        | inl e ↦ rw e spent
        | inr e ↦ rw e spent
      ]

  pub Keeps-revoke : (row : RefreshSession) → Keeps (revoke row)
  unfolding revoke
  Keeps-revoke row s spent = (spent.0, IsSpent-revoke h row.id s.now s.work.sessions spent.1)
