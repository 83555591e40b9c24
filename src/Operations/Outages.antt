-- ===== src/Operations/Outages.antt =====
-- What a database that fails for some workspaces does to a cycle of the SLA worker.
use support_endpoint.Prelude.{
  any, ◌&&◌, Option, none, subst, false, ℕ, ◌≡◌, refl, sym, ap, ◌∙◌, Bool, true, not, some, List,
  [], ◌∷◌, select, Bool-cases, inl, inr, if◌then◌else◌,
}
use support_endpoint.Models.{Workspace}
use support_endpoint.Session.{
  Db, Action, Session, Result, ok, err, unhandled, pure, commit, ◌>>=◌, ◌>>◌,
}
use support_endpoint.Operations.Evaluation.{Counters, evaluate_sla, evaluate_each}
use support_endpoint.Operations.Scheduler.{
  no_counters, add_or_rollback, evaluate_workspaces, evaluate_all_workspaces, run_once, CycleEnd,
  end_of, totals_of,
}
use support_endpoint.Operations.Service.{materialize_workspace_slas}
use support_endpoint.Workspaces.Repo.{WorkspaceQueries, list_all}

-- An action that leaves nothing uncommitted when it returns.
abbrev SettledIfOk : {A : Type 0} → Result A × Session → Type 0
SettledIfOk (ok a, s) = s.work ≡ s.stored
SettledIfOk (err e, s) = Unit

bind-Settled :
    {A B : Type 0} (m : Action A) (f : A → Action B)
    → ((a : A) (s : Session) → SettledIfOk (f a s))
    → (s : Session) → SettledIfOk ((m >>= f) s)
bind-Settled {A} {B} m f h s = bound (m s)
  where
    bound : (out : Result A × Session) → SettledIfOk (((λ _. out) >>= f) s)
    bound (ok a, s') = h a s'
    bound (err e, s') = tt

evaluate_sla-Settled : (w : ℕ) (s : Session) → SettledIfOk (evaluate_sla w s)
unfolding evaluate_sla
evaluate_sla-Settled w =
    bind-Settled (materialize_workspace_slas w) _
      (λ _ s. bind-Settled (evaluate_each w _ no_counters) (λ c. commit >> pure c) (λ c t. refl) s)

-- The evaluation of a workspace by a database that fails for some of them, when the session holds
-- whatever was written until then. An id that is drawn and lost may be drawn again.
unfoldable pub failing_for : (ℕ → Bool) → (ℕ → Db) → ℕ → Action Counters
failing_for is_down written w s =
    let done = evaluate_sla w s in
    if is_down w then (err (unhandled "OperationalError"), record s { work = written w }) else done

rolled_back : (s : Session) → s.work ≡ s.stored → record s { work = s.stored } ≡ s
rolled_back s h = ap (λ d. record s { work = d }) (sym h)

after-Settled :
    (answers : Bool) (c : Counters) (out : Result Counters × Session)
    → SettledIfOk out
    → (add_or_rollback answers c out).1.work ≡ (add_or_rollback answers c out).1.stored
unfolding add_or_rollback
after-Settled answers c (ok new, s) h = h
after-Settled answers c (err e, s) h = refl

-- A workspace for which neither the evaluation nor the query of the handler is answered.
abbrev pub is_lost : (ℕ → Bool) → (ℕ → Bool) → Workspace → Bool
is_lost is_down answers w = is_down w.id && not (answers w.id)

abbrev pub is_up : (ℕ → Bool) → Workspace → Bool
is_up is_down w = not (is_down w.id)

-- How the loop ends, when some workspace is lost and when none is, by the end of the loop over the
-- others.
abbrev Loops : Option Counters × Session → Bool → Option Counters × Session → Type 0
Loops others true out = out.0 ≡ none
Loops others false out = out ≡ others

-- How a cycle ends, in the same way.
abbrev pub Isolates :
    List Workspace → Option Counters × Session → Bool → CycleEnd × Session → Type 0
Isolates workspaces others true out = out.0 ≡ CycleEnd.raised
Isolates workspaces others false out =
    out ≡ (end_of (totals_of workspaces others.0), record others.1 { work = others.1.stored })

-- The loop over the workspaces that are up.
abbrev pub others :
    (ℕ → Bool) → (ℕ → Bool) → List Workspace → Option Counters × Session → Option Counters × Session
others is_down answers ws before =
    evaluate_workspaces answers evaluate_sla (select (is_up is_down) ws) before

module _ (is_down answers : ℕ → Bool) (written : ℕ → Db) where
  evaluate_workspaces-none :
      (evaluate : ℕ → Action Counters) (ws : List Workspace) (s : Session)
      → evaluate_workspaces answers evaluate ws (none, s) ≡ (none, s)
  unfolding evaluate_workspaces
  evaluate_workspaces-none evaluate [] s = refl
  evaluate_workspaces-none evaluate (w ∷ ws) s = refl

  Loops-none :
      (ws : List Workspace) (s : Session) (lost : Bool)
      → Loops
          (others is_down answers ws (none, s))
          lost
          (evaluate_workspaces answers (failing_for is_down written) ws (none, s))
  Loops-none ws s true = ap (λ o. o.0) (evaluate_workspaces-none (failing_for is_down written) ws s)
  Loops-none ws s false =
      evaluate_workspaces-none (failing_for is_down written) ws s
      ∙ sym (evaluate_workspaces-none evaluate_sla (select (is_up is_down) ws) s)

  evaluate_workspaces-Loops :
      (ws : List Workspace) (before : Option Counters × Session)
      → before.1.work ≡ before.1.stored
      → Loops
          (others is_down answers ws before)
          (any (is_lost is_down answers) ws)
          (evaluate_workspaces answers (failing_for is_down written) ws before)
  unfolding evaluate_workspaces select any failing_for add_or_rollback
  evaluate_workspaces-Loops [] before h = refl
  evaluate_workspaces-Loops (w ∷ ws) (none, s) h = Loops-none (w ∷ ws) s _
  evaluate_workspaces-Loops (w ∷ ws) (some c, s) h = elim (Bool-cases (is_down w.id)) [
    | inl down ↦ elim (Bool-cases (answers w.id)) [
      | inl read ↦
          rw (down, read)
            (subst
              (λ q.
                Loops (others is_down answers ws (some c, q)) (any (is_lost is_down answers) ws) (
                  evaluate_workspaces answers (failing_for is_down written) ws
                    (some c, record s { work = s.stored })))
              (rolled_back s h)
              (evaluate_workspaces-Loops ws (some c, record s { work = s.stored }) refl))
      | inr lost ↦
          rw (down, lost)
            (ap (λ o. o.0) (evaluate_workspaces-none (failing_for is_down written) ws _))
    ]
    | inr up ↦ rw up (
        evaluate_workspaces-Loops ws (add_or_rollback (answers w.id) c (evaluate_sla w.id s))
          (after-Settled (answers w.id) c (evaluate_sla w.id s) (evaluate_sla-Settled w.id s)))
  ]

Loops-Isolates :
    (ws : List Workspace) (others out : Option Counters × Session) (lost : Bool)
    → Loops others lost out
    → Isolates ws others lost (end_of (totals_of ws out.0), record out.1 { work = out.1.stored })
Loops-Isolates ws others out true h = ap (λ c. end_of (totals_of ws c)) h
Loops-Isolates ws others out false h =
    ap
      (λ (o : Option Counters × Session).
        (end_of (totals_of ws o.0), record o.1 { work = o.1.stored }))
      h

-- A cycle in which the database fails during the evaluation of some workspaces, whatever these have
-- written without a commit by then: if it answers the handler's query for each of them, the cycle
-- ends, stores and leaves the same as one that evaluates only the others, but for the number of
-- workspaces, which counts them all; if it does not answer that query for some of them, the cycle
-- raises.
pub run_once-isolated :
    (is_down answers : ℕ → Bool) (written : ℕ → Db) (queries : WorkspaceQueries) (s : Session)
    → let workspaces = list_all queries s.stored in
      Isolates workspaces
        (others is_down answers workspaces (some no_counters, record s { work = s.stored }))
        (any (is_lost is_down answers) workspaces)
        (run_once answers (failing_for is_down written) (some true) queries s)
unfolding run_once evaluate_all_workspaces
run_once-isolated is_down answers written queries s =
    let workspaces = list_all queries s.stored in
    let start : Option Counters × Session = (some no_counters, record s { work = s.stored }) in
    Loops-Isolates workspaces (others is_down answers workspaces start) _
      (any (is_lost is_down answers) workspaces)
      (evaluate_workspaces-Loops is_down answers written workspaces start refl)
