-- ===== src/Session/Monad.antt =====
-- Code that runs in a session and may raise. What was written before a raise stays in `work`.
use support_endpoint.Prelude.{ℕ, ◌+◌, Bool, true, false, Option, none, some}
use support_endpoint.Session.Errors.{Error, Result, ok, err}
use support_endpoint.Session.Tables.{Db, Session}

abbrev pub Action : Type 0 → Type 0
Action A = Session → Result A × Session

module _ {A : Type 0} where
  abbrev pub pure : A → Action A
  pure a s = (ok a, s)

  abbrev pub raise : Error → Action A
  raise e s = (err e, s)

  -- A query reads the session's tables.
  abbrev pub query : (Db → A) → Action A
  query f s = (ok (f s.work), s)

  -- `if x is None: raise e`
  abbrev pub or_raise : Option A → Error → Action A
  or_raise none e s = (err e, s)
  or_raise (some a) e s = (ok a, s)

  abbrev continue : {B : Type 0} → Result A → (A → Action B) → Action B
  continue (ok a) f s = f a s
  continue (err e) f s = (err e, s)

infixl 5 ◌>>=◌ ◌>>◌
abbrev pub ◌>>=◌ : {A B : Type 0} → Action A → (A → Action B) → Action B
◌>>=◌ m f s = let (r, s') = m s in continue r f s'

abbrev pub ◌>>◌ : {A B : Type 0} → Action A → Action B → Action B
m >> k = m >>= λ _. k

-- `if b: raise e`
abbrev pub raise_if : Bool → Error → Action (Unit {0})
raise_if true e s = (err e, s)
raise_if false e s = (ok tt, s)

-- A write that is flushed.
abbrev pub modify : (Db → Db) → Action (Unit {0})
modify f s = (ok tt, record s { work = f s.work })

-- `db.commit()`
abbrev pub commit : Action (Unit {0})
commit s = (ok tt, record s { stored = s.work })

-- `new_uuid`: a value that no row has yet.
abbrev pub new_uuid : Action ℕ
new_uuid s = (ok s.next_id, record s { next_id = s.next_id + 1 })

-- `utcnow`
abbrev pub utcnow : Action ℕ
utcnow s = (ok s.now, s)

-- `get_db`: a session over the stored database, closed at the end.
unfoldable pub request : {A : Type 0} → Action A → Session → Result A × Session
request m s = let (r, s') = m (record s { work = s.stored }) in (r, record s' { work = s'.stored })
