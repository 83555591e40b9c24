-- ===== src/Lookup/Updates.antt =====
-- What a request to update a queue does on each of its branches.
use support_endpoint.Prelude.{
  ℕ, ◌≡◌, refl, Bool, true, false, ◌&&◌, not, none, some, List, [], arith, inl, inr, ◌⊎◌,
  Option-cases, Bool-cases, find, find_sound, find-modify_where, find-modify_where_id, modify_where,
  any, ◌==◌, str_eq, IsGiven, or_keep-IsGiven,
}
use support_endpoint.Models.{Queue}
use support_endpoint.Session.{Db, Session, Result, ok, err, not_found, unhandled, request}
use support_endpoint.Ticket.Repo.{get_queue as find_queue}
use support_endpoint.Lookup.Repo
use support_endpoint.Lookup.Repo.{has_queue_name}
use support_endpoint.Lookup.Service.{LookupUpdateRequest, revise_queue, get_queue, update_queue}

-- The queue after an update: each field by itself, by the field of the request that names it.
pub record IsUpdated (payload : LookupUpdateRequest) (old new : Queue) : Type 0 where
  pub id : new.id ≡ old.id
  pub workspace_id : new.workspace_id ≡ old.workspace_id
  pub name : IsGiven payload.name old.name new.name
  pub description : IsGiven payload.description old.description new.description
  pub is_active : IsGiven payload.is_active old.is_active new.is_active

-- Another queue of the workspace has the name of the queue.
abbrev is_namesake : Queue → Queue → Bool
is_namesake new q =
    not (q.id == new.id) && (q.workspace_id == new.workspace_id && str_eq q.name new.name)

-- All tables but those of the queues and of the audit are the same.
abbrev pub SameTables : Db → Db → Type 0
SameTables d d' =
    record d' { queues = []; audit_events = [] } ≡ record d { queues = []; audit_events = [] }

-- How an update ends: with the stored queue, if the workspace has it, and its name, as it is then, is
-- no other queue's of the workspace, and with the other queues and tables as they were; or with a
-- 404 if the workspace does not have the queue; or with a 500 if another queue has the name.
abbrev pub Updates : ℕ → ℕ → LookupUpdateRequest → Session → Result Queue × Session → Type 0
Updates w i payload s (ok queue, s') =
    (old : Queue) × (find_queue w i s.stored ≡ some old)
    × IsUpdated payload old queue
    × (any (is_namesake queue) s.stored.queues ≡ false)
    × (find_queue w i s'.stored ≡ some queue)
    × ((w' j : ℕ) → (j == i) ≡ false → find_queue w' j s'.stored ≡ find_queue w' j s.stored)
    × SameTables s.stored s'.stored
Updates w i payload s (err e, s') =
    (((e ≡ not_found "Queue not found") × (find_queue w i s.stored ≡ none))
      ⊎ ((e ≡ unhandled "IntegrityError")
          × (old : Queue) × (find_queue w i s.stored ≡ some old)
          × (new : Queue) × IsUpdated payload old new
          × (any (is_namesake new) s.stored.queues ≡ true)))
    × (s'.stored ≡ s.stored)

revise_queue-IsUpdated :
    (payload : LookupUpdateRequest) (old : Queue) → IsUpdated payload old (revise_queue payload old)
revise_queue-IsUpdated payload old = record {
  id = refl;
  workspace_id = refl;
  name = or_keep-IsGiven payload.name old.name;
  description = or_keep-IsGiven payload.description old.description;
  is_active = or_keep-IsGiven payload.is_active old.is_active;
}

find_queue_self :
    (w i : ℕ) (payload : LookupUpdateRequest) (old : Queue) (xs : List Queue)
    → find (λ (q : Queue). q.id == i && q.workspace_id == w) xs ≡ some old
    → find
        (λ (q : Queue). q.id == i && q.workspace_id == w)
        (modify_where (λ (q : Queue). q.id == old.id) (revise_queue payload) xs)
      ≡ some (revise_queue payload old)
find_queue_self w i payload old xs h = ground (
  arith,
  find_sound (λ (q : Queue). q.id == i && q.workspace_id == w) xs old h,
  find-modify_where (λ (q : Queue). q.id == i && q.workspace_id == w)
      (λ (q : Queue). q.id == old.id) (revise_queue payload) xs (λ x. refl),
)

find_queue-other :
    (w i w' j : ℕ) (payload : LookupUpdateRequest) (old : Queue) (xs : List Queue)
    → find (λ (q : Queue). q.id == i && q.workspace_id == w) xs ≡ some old
    → (j == i) ≡ false
    → find
        (λ (q : Queue). q.id == j && q.workspace_id == w')
        (modify_where (λ (q : Queue). q.id == old.id) (revise_queue payload) xs)
      ≡ find (λ (q : Queue). q.id == j && q.workspace_id == w') xs
find_queue-other w i w' j payload old xs h other =
    find-modify_where_id (λ (q : Queue). q.id == j && q.workspace_id == w')
      (λ (q : Queue). q.id == old.id) (revise_queue payload) xs (λ x. refl)
      (λ x picked.
        ground (arith, find_sound (λ (q : Queue). q.id == i && q.workspace_id == w) xs old h))

-- A request to update a queue succeeds exactly when its workspace has the queue and no other queue
-- with the name that the queue then has. Then the answer is the stored queue, each of its fields
-- being the one that was given, if one was, or else as before; no queue with another id changes, and
-- no table but those of the queues and of the audit. Else the answer is a 404 or, for the name, a 500,
-- and nothing changes.
pub update_queue-Updates :
    (w actor i : ℕ) (payload : LookupUpdateRequest) (s : Session)
    → Updates w i payload s (request (update_queue w actor i payload) s)
unfolding update_queue request get_queue find_queue Repo.assign_queue
update_queue-Updates w actor i payload s = elim (Option-cases (find_queue w i s.stored)) [
  | inl e ↦ rw e (inl (refl, e), refl)
  | inr (old, e) ↦
      let new = revise_queue payload old in
      elim (Bool-cases (any (is_namesake new) s.stored.queues)) [
        | inl taken ↦
            rw (e, taken) (inr (refl, old, e, new, revise_queue-IsUpdated payload old, taken), refl)
        | inr free ↦
            rw (e, free)
              (
                old,
                e,
                revise_queue-IsUpdated payload old,
                free,
                find_queue_self w i payload old s.stored.queues e,
                (λ w' j. find_queue-other w i w' j payload old s.stored.queues e),
                refl,
              )
      ]
]
