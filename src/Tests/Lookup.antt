-- ===== src/Tests/Lookup.antt =====
-- The theorem about the update of a queue, at a desk with two queues.
use support_endpoint.Prelude.{find, any, ◌≡◌, refl, true, false, none, some, [], ◌∷◌}
use support_endpoint.Session.{Db, Session, err, unhandled, request}
use support_endpoint.Samples.{desk_db, desk}
use support_endpoint.Ticket.Repo.{get_queue as find_queue}
use support_endpoint.Lookup.Repo
use support_endpoint.Lookup.Service.{LookupUpdateRequest, get_queue, update_queue}
use support_endpoint.Lookup.Updates.{Updates, update_queue-Updates}

abbrev queues_db : Db
queues_db = record desk_db {
  queues =
      record { id = 60; workspace_id = 1; name = "Billing"; description = ""; is_active = true }
      ∷ record { id = 61; workspace_id = 1; name = "Printers"; description = ""; is_active = true }
      ∷ [];
}

abbrev queues : Session
queues = record desk { stored = queues_db; work = queues_db }

abbrev renaming : LookupUpdateRequest
renaming = record { name = some "Invoices"; description = none; is_active = some false }

abbrev clash : LookupUpdateRequest
clash = record { name = some "Printers"; description = none; is_active = none }

update_queue-Updates_example :
    Updates 1 60 renaming queues (request (update_queue 1 3 60 renaming) queues)
update_queue-Updates_example = update_queue-Updates 1 3 60 renaming queues

refused_name : (request (update_queue 1 3 60 clash) queues).0 ≡ err (unhandled "IntegrityError")
unfolding request update_queue get_queue find_queue Repo.assign_queue find any
refused_name = refl
