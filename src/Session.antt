-- ===== src/Session.antt =====
-- A request's database session: db/session.py, db/base.py and core/exceptions.py, with the tables
-- that a SQLAlchemy session works on.
-- The session reads and writes `work`; `commit` makes it the stored database, and closing the
-- session (the `finally` of `get_db`) drops what was not committed.
mod Errors
mod Tables
mod Monad
pub use Errors.*
pub use Tables.*
pub use Monad.*
unfoldable pub use Monad.{request}
unfoldable pub use Errors.{status_code, error_code, message}
