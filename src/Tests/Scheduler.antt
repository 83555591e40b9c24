-- ===== src/Tests/Scheduler.antt =====
-- The theorem about a cycle of the SLA worker, with a second workspace for which the database fails.
use support_endpoint.Prelude.{ℕ, Bool, true, any, some, [], ◌∷◌, ◌==◌}
use support_endpoint.Session.{Db, Session, empty_db}
use support_endpoint.Samples.{late_db, late_desk}
use support_endpoint.Workspaces.Repo.{WorkspaceQueries, list_all}
use support_endpoint.Operations.Scheduler.{no_counters, run_once}
use support_endpoint.Operations.Outages.{failing_for, is_lost, others, Isolates, run_once-isolated}

abbrev plain_workspaces : WorkspaceQueries
plain_workspaces = record { lower = λ s. s; by_id = λ ws. ws }

abbrev two_db : Db
two_db = record late_db {
  workspaces =
      record { id = 1; name = "Desk"; slug = "desk" }
      ∷ record { id = 2; name = "Other"; slug = "other" }
      ∷ [];
}

abbrev two_desks : Session
two_desks = record late_desk { stored = two_db; work = two_db }

abbrev second_is_down : ℕ → Bool
second_is_down w = w == 2

-- The handler's query is answered.
abbrev always : ℕ → Bool
always w = true

run_once-isolated_example :
    let workspaces = list_all plain_workspaces two_desks.stored in
    Isolates workspaces
      (others second_is_down always workspaces
        (some no_counters, record two_desks { work = two_desks.stored }))
      (any (is_lost second_is_down always) workspaces)
      (run_once always
        (failing_for second_is_down (λ w. empty_db))
        (some true)
        plain_workspaces
        two_desks)
run_once-isolated_example =
    run_once-isolated second_is_down always (λ w. empty_db) plain_workspaces two_desks
