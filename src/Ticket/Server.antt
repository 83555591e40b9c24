-- ===== src/Ticket/Server.antt =====
-- A server that handles requests about tickets one after another, and induction over its runs.
use support_endpoint.Prelude.{ℕ, List, [], ◌∷◌, subst₂, sym, All}
use support_endpoint.Session.{Db, Session, Result, ok, err}
use support_endpoint.Models.{Ticket}
use support_endpoint.Ticket.Calls.{Call, handle}
use support_endpoint.Ticket.Refines.{Ends}
use support_endpoint.Ticket.Routes.{handle-Ends}
use support_endpoint.Ticket.Step.{Step}

-- Who asks, under which workspace's path, and when.
pub record Request : Type 0 where
  pub workspace_id : ℕ
  pub user_id : ℕ
  pub at : ℕ
  pub call : Call

unfoldable pub serve : List Request → Session → Session
serve [] s = s
serve (r ∷ rs) s = serve rs (handle r.workspace_id r.user_id r.call (record s { now = r.at })).1

-- A property of the stored database and the next id that every step in the workspaces `W`
-- keeps holds after any run of requests under such workspaces.
module _ (W : ℕ → Type 0) (P : Db → ℕ → Type 0)
    (keep : (w : ℕ) (s s' : Session)
      → W w
      → Step w s s'
      → P s.stored s.next_id
      → P s'.stored s'.next_id) where
  Ends-keeps :
      (w : ℕ) (s : Session) (out : Result Ticket × Session)
      → W w
      → Ends w s out
      → P s.stored s.next_id
      → P out.1.stored out.1.next_id
  Ends-keeps w s (ok t, s') ww e h = keep w s s' ww e.0 h
  Ends-keeps w s (err x, s') ww e h = subst₂ P (sym e.0) (sym e.1) h

  pub serve_keeps :
      (rs : List Request) (s : Session)
      → All (λ (r : Request). W r.workspace_id) rs
      → P s.stored s.next_id
      → P (serve rs s).stored (serve rs s).next_id
  unfolding serve
  serve_keeps [] s ws h = h
  serve_keeps (r ∷ rs) s ws h =
      let s' = record s { now = r.at } in
      let out = handle r.workspace_id r.user_id r.call s' in
      serve_keeps rs out.1 ws.1
        (Ends-keeps r.workspace_id s' out ws.0 (handle-Ends r.workspace_id r.user_id s' r.call) h)

-- Any workspace.
abbrev pub Anywhere : ℕ → Type 0
Anywhere w = Unit

pub All-Anywhere : (rs : List Request) → All (λ (r : Request). Anywhere r.workspace_id) rs
All-Anywhere [] = tt
All-Anywhere (r ∷ rs) = (tt, All-Anywhere rs)
