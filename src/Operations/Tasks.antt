-- ===== src/Operations/Tasks.antt =====
-- The life of a support task: what `set_task_status` does on each of its branches.
use support_endpoint.Prelude.{
  ℕ, ◌≡◌, refl, Bool, true, false, Option, none, some, List, arith, Option-cases, modify_where,
  ◌==◌, ◌&&◌, inl, inr, ◌⊎◌, find, find_sound, find-modify_where,
}
use support_endpoint.Models.{TaskStatus, task_status_eq, SupportTask}
use support_endpoint.Session.{Session, Result, ok, err, not_found, validation, request}
use support_endpoint.Operations.Repo.{get_task}
use support_endpoint.Operations.Service.{complete, set_task_status}

-- What the answer to a request to change a task's status is, given the task that is found.
pub data Answer (now : ℕ) : Option SupportTask → TaskStatus → Result SupportTask → Type 0 where
  no_task : {status : TaskStatus} → Answer now none status (err (not_found "Task not found"))
  not_open :
      {task : SupportTask} {status : TaskStatus}
      → ¬ (task.status ≡ TaskStatus.opened)
      → Answer now (some task) status (err (validation "Only open tasks can change status"))
  reopened :
      {task : SupportTask}
      → task.status ≡ TaskStatus.opened
      → Answer now
          (some task)
          TaskStatus.opened
          (err (validation "Task can only be completed or cancelled"))
  completed :
      {task : SupportTask}
      → task.status ≡ TaskStatus.opened
      → Answer now
          (some task)
          TaskStatus.done
          (ok (record task { status = TaskStatus.done; completed_at = some now }))
  cancelled :
      {task : SupportTask}
      → task.status ≡ TaskStatus.opened
      → Answer now
          (some task)
          TaskStatus.cancelled
          (ok (record task { status = TaskStatus.cancelled }))

-- The stored tasks after the request: those before it, unless it has an answer, which is then the
-- stored task.
abbrev pub Stores : ℕ → Session → Result SupportTask × Session → Type 0
Stores w s (ok task, s') = get_task w task.id s'.stored ≡ some task
Stores w s (err e, s') = s'.stored ≡ s.stored

abbrev is_task : ℕ → ℕ → SupportTask → Bool
is_task w i t = t.id == i && t.workspace_id == w

complete-keeps :
    (status : TaskStatus) (now : ℕ) (t : SupportTask)
    → ((complete status now t).id ≡ t.id) × ((complete status now t).workspace_id ≡ t.workspace_id)
unfolding complete
complete-keeps TaskStatus.opened now t = (refl, refl)
complete-keeps TaskStatus.done now t = (refl, refl)
complete-keeps TaskStatus.cancelled now t = (refl, refl)

-- The task that was found is the one that is found after the update of its row.
find-completed :
    (w i now : ℕ) (status : TaskStatus) (task : SupportTask) (xs : List SupportTask)
    → find (is_task w i) xs ≡ some task
    → find
        (is_task w (complete status now task).id)
        (modify_where (λ (t : SupportTask). t.id == task.id) (complete status now) xs)
      ≡ some (complete status now task)
find-completed w i now status task xs h = ground (
  arith,
  find_sound (is_task w i) xs task h,
  complete-keeps status now task,
  find-modify_where (is_task w i) (λ (t : SupportTask). t.id == task.id) (complete status now) xs
      (λ x. ground (arith, complete-keeps status now x)),
)

task_status-cases :
    (t : SupportTask) → (t.status ≡ TaskStatus.opened) ⊎ (¬ (t.status ≡ TaskStatus.opened))
task_status-cases t = ground arith

not-opened_lem :
    (status : TaskStatus)
    → ¬ (status ≡ TaskStatus.opened)
    → task_status_eq status TaskStatus.opened ≡ false
unfolding task_status_eq
not-opened_lem status h = ground arith

opened_lem :
    (status : TaskStatus)
    → status ≡ TaskStatus.opened
    → task_status_eq status TaskStatus.opened ≡ true
unfolding task_status_eq
opened_lem status h = ground arith

module _ (w i actor : ℕ) (s : Session) where
  abbrev pub asked : TaskStatus → Result SupportTask × Session
  asked status = request (set_task_status w i actor status) s

  -- The request on a task that is open.
  set_opened :
      (status : TaskStatus) (task : SupportTask)
      → get_task w i s.stored ≡ some task
      → task.status ≡ TaskStatus.opened
      → Answer s.now (get_task w i s.stored) status (asked status).0 × Stores w s (asked status)
  unfolding set_task_status request get_task task_status_eq complete
  set_opened TaskStatus.opened task e o = rw (e, opened_lem task.status o) (Answer.reopened o, refl)
  set_opened TaskStatus.done task e o =
      rw (e, opened_lem task.status o)
        (Answer.completed o, find-completed w i s.now TaskStatus.done task s.stored.tasks e)
  set_opened TaskStatus.cancelled task e o =
      rw (e, opened_lem task.status o)
        (Answer.cancelled o, find-completed w i s.now TaskStatus.cancelled task s.stored.tasks e)

-- A request to set a task's status answers 404 if its workspace has no such task, refuses one that
-- is not open and a status that is neither done nor cancelled, and in these cases changes nothing;
-- else it answers with the task in that status, completed now if it is done, as it is then stored.
pub set_task_status-Answer :
    (w i actor : ℕ) (status : TaskStatus) (s : Session)
    → Answer s.now (get_task w i s.stored) status (asked w i actor s status).0
      × Stores w s (asked w i actor s status)
unfolding set_task_status request get_task
set_task_status-Answer w i actor status s = elim (Option-cases (get_task w i s.stored)) [
  | inl e ↦ rw e (Answer.no_task, refl)
  | inr (task, e) ↦ elim (task_status-cases task) [
    | inl o ↦ set_opened w i actor s status task e o
    | inr n ↦ rw (e, not-opened_lem task.status n) (Answer.not_open n, refl)
  ]
]
