-- ===== src/Operations/Scheduler.antt =====
-- workers/sla_scheduler.py: a cycle of the worker over all workspaces. The evaluation of a workspace is
-- a parameter, since a database that fails may make it raise anywhere; where it does not fail, it is
-- evaluate_sla.
use support_endpoint.Prelude.{
  ℕ, ◌+◌, Bool, true, false, Option, none, some, List, [], ◌∷◌, length, if◌then◌else◌,
}
use support_endpoint.Models.{Workspace}
use support_endpoint.Session.{Action, Session, Result, ok, err}
use support_endpoint.Operations.Evaluation.{Counters}
use support_endpoint.Workspaces.Repo.{WorkspaceQueries, list_all}

-- What a cycle returns.
pub record Totals : Type 0 where
  pub workspaces : ℕ
  pub counters : Counters

-- How a cycle ends: with an exception, or with what it logs.
pub data CycleEnd : Type 0 where
  raised : CycleEnd
  skipped : CycleEnd
  completed : Totals → CycleEnd

abbrev pub end_of : Option Totals → CycleEnd
end_of none = CycleEnd.raised
end_of (some totals) = CycleEnd.completed totals

abbrev pub totals_of : List Workspace → Option Counters → Option Totals
totals_of workspaces none = none
totals_of workspaces (some c) = some (record { workspaces = length workspaces; counters = c })

abbrev pub no_counters : Counters
no_counters = record { evaluated = 0; warnings = 0; breaches = 0 }

-- The three `+=`.
unfoldable pub add_counters : Counters → Counters → Counters
add_counters c new = record {
  evaluated = c.evaluated + new.evaluated;
  warnings = c.warnings + new.warnings;
  breaches = c.breaches + new.breaches;
}

-- The end of the `try`: the counters, or a rollback. The rollback expires what the session holds, so
-- the handler's `workspace.id` is a query; none stands for the exception if it is not answered.
unfoldable pub add_or_rollback :
    Bool → Counters → Result Counters × Session → Option Counters × Session
unfolding add_counters
add_or_rollback answers c (ok new, s) = (some (add_counters c new), s)
add_or_rollback answers c (err e, s) =
    (if answers then some c else none, record s { work = s.stored })

-- The workspaces whose `id` can be read again after a rollback, and the `evaluate_sla` of each.
module _ (answers : ℕ → Bool) (evaluate : ℕ → Action Counters) where
  -- The loop, which ends at an exception of the handler.
  unfoldable pub evaluate_workspaces :
      List Workspace → Option Counters × Session → Option Counters × Session
  unfolding add_or_rollback
  evaluate_workspaces [] out = out
  evaluate_workspaces (w ∷ ws) (none, s) = (none, s)
  evaluate_workspaces (w ∷ ws) (some c, s) =
      evaluate_workspaces ws (add_or_rollback (answers w.id) c (evaluate w.id s))

  unfoldable pub evaluate_all_workspaces : WorkspaceQueries → Session → Option Totals × Session
  unfolding evaluate_workspaces
  evaluate_all_workspaces queries s =
      let workspaces = list_all queries s.work in
      let (c, s') = evaluate_workspaces workspaces (some no_counters, s) in
      (totals_of workspaces c, s')

  -- `run_once`, after the answer to `_try_lock`: none if it raises, false if another worker has the
  -- lock. Closing the session drops what is not committed.
  unfoldable pub run_once : Option Bool → WorkspaceQueries → Session → CycleEnd × Session
  unfolding evaluate_all_workspaces
  run_once none queries s = (CycleEnd.raised, record s { work = s.stored })
  run_once (some false) queries s = (CycleEnd.skipped, record s { work = s.stored })
  run_once (some true) queries s =
      let (totals, s') = evaluate_all_workspaces queries (record s { work = s.stored }) in
      (end_of totals, record s' { work = s'.stored })
