-- ===== src/Lib.antt =====
-- A model of the backend of a support desk: the application under apps/api/app, a FastAPI server
-- over a SQL database. Requests reach a route (api/v1), which requires a permission (authz) and
-- calls a service (services); a service reads and writes tables through repositories
-- (repositories) inside one database session, writes an audit event, and commits. A worker
-- evaluates the SLA clocks of tickets.
--
-- Parts, and the files that model them:
--   Prelude      tests on native numbers, lists, and tables as lists of rows: `find` is
--                `db.scalar(select …)`, `select` is `db.scalars`, `modify_where` an UPDATE and
--                `remove_where` a DELETE.
--   Models       models/*.py: a record for each table's row, a data type for each enumeration.
--   Session      db/session.py, db/base.py, core/exceptions.py, main.py: `Db` holds a list of rows
--                for each table, in the order of insertion. `Action` is code that runs in a session
--                and may raise; `request` is get_db: it starts from the stored tables, and what is
--                not committed when it ends is lost.
--   Audit        repositories/audit_repo.py.
--   Authz        authz/permissions.py (Permissions), authz/deps.py (CurrentUser has
--                get_current_user), and repositories/rbac_repo.py with ensure_system_roles of
--                services/auth_service.py (Roles). Guard is about the guard of a route, Seeding and
--                Grants about the system roles.
--   Ticket       models/ticket_enums.py (Status), repositories/ticket_repo.py (Repo),
--                services/ticket_service.py (Service), api/v1/tickets.py (Router). Calls has the
--                routes that write as one type of requests, Server runs a list of them. Step is an
--                abstract service desk, a step relation on the stored tables; Rows, Validation,
--                Refines and Routes lead from the code to its steps. Keys, Isolation, Graph,
--                Lifecycle, Integrity, Records, Changes, Entries, Instants, History and Tags hold
--                invariants of runs.
--   Operations   repositories/operations_repo.py (Repo), services/operations_service.py (Clock has
--                its decisions on the columns of one clock, Evaluation the SLA evaluation, Service
--                the rest), api/v1/operations.py (Router), workers/sla_scheduler.py (Scheduler,
--                with the answers of the advisory lock and of the handler's query as arguments).
--                Outages is about a cycle of the worker in which the database fails, Alerts and
--                Visits about the alerts of a clock, Tasks about tasks, Attach and Coverage about
--                the attaching of clocks.
--   Crm          repositories/client_repo.py (Repo), services/client_service.py (Service),
--                api/v1/clients.py and api/v1/organizations.py (Router); Integrity is about updates
--                and deletions.
--   Lookup       repositories/ticket_lookup_repo.py (Repo), services/ticket_lookup_service.py
--                (Service), api/v1/queues.py, api/v1/ticket_categories.py and api/v1/tags.py
--                (Router); Updates is about the update of a queue.
--   Auth         repositories/user_repo.py and repositories/session_repo.py (Repo),
--                services/auth_service.py (Service, Bootstrap), and api/v1/auth.py (Router,
--                Browser). Calls runs a list of registrations, logins, refreshes and logouts;
--                Spent, Keeps and Rotation are about refresh tokens, Access is about access tokens,
--                Owner about bootstrap, Limited about logins behind the rate limiter. Hashes,
--                signatures and random tokens (core/security.py) are a parameter, Security.
--   Workspaces   repositories/workspace_repo.py (Slugify, Repo), services/workspace_service.py and
--                api/v1/workspaces.py (Service). Decimal is `str` of an int, Slug is about the loop
--                that looks for an unused slug, Creation about what the creator may do.
--   Communication  repositories/communication_repo.py (Repo), services/communication_service.py
--                (Filename has the check of a file's name, Attachments the attachments, Service the
--                rest), api/v1/communications.py (Router). Calls runs a list of the requests that
--                write. Change is an abstract view of what one may add; Names, Limits, Endings and
--                Routes lead from the code to it. Quota and Rooted hold invariants of runs,
--                Downloads is about who may download. The tables of Unicode and the digest are a
--                parameter, FileTools.
--   Portal       services/portal_service.py (Service), api/v1/portal.py (Router). Reads is about
--                what an account sees, Messages about what it sends, Links about the links between
--                clients and accounts.
--   RateLimit    services/rate_limit_service.py, with Redis as a parameter. Attempts is about the
--                attempts that pass within a window.
--   Config       core/config.py; Safety is about the settings that production accepts.
--   Knowledge    repositories/knowledge_repo.py (Repo), services/knowledge_service.py (Service),
--                api/v1/knowledge.py (Router); Calls runs a list of the requests that write. Rate
--                is about how many suggestions there are in a minute, Published about what the
--                assistant reads. What the gateway answers to a prompt is a parameter, Assistant.
--   Gateway      ai/gateway.py; Calls has calls that overlap, as starts and ends in any order,
--                Breaker is about the breaker of the process, Outage about one call while Redis is
--                down. Redis, `re.sub` and the provider are parameters.
--   Observability  middleware/request_metrics.py (Metrics), middleware/correlation.py,
--                api/v1/metrics.py and api/v1/health.py (Probes). Counts is about the metrics of
--                requests that overlap. `sorted`, `str.lower` and the format of a duration are
--                parameters.
--   Samples, Tests   a small database, and the theorems at it.
--
-- Choices. A uuid is a natural number from a supply that never gives the same one twice. An
-- instant counts microseconds, and a request runs at one instant. The audit metadata is kept as
-- the dict that its JSON text encodes. The column `updated_at` is left out. Assigning to a loaded
-- object is an update of its row, since the audit event that each service writes next flushes it.
-- A unique constraint that the program can run into makes the insert raise. The width of a text
-- column is not enforced, so a slug may be longer than its column. A suggestion of the knowledge
-- assistant is counted and stored at the same instant, though the program reads the clock before
-- and after the model's call; the sum of the durations of requests, a float, is an exact natural
-- number. An ORDER BY created_at of the histories of a ticket and of its messages is `sort_by`,
-- with ties in the order of insertion, which the database may choose otherwise: the theorems about
-- these orders are for instants that differ. LIKE and the other ORDER BY belong to the database
-- and are parameters (TicketQueries, OperationsQueries, CrmQueries, LookupQueries,
-- WorkspaceQueries, KnowledgeQueries and PortalQueries, which have `str.lower` too), each a
-- function of the rows, though a database may break ties differently from one query to the next.
-- Loops are recursion over the rows that the program's query has returned. The loop of
-- WorkspaceRepository.create runs on fuel, one more than the number of workspaces: that many
-- different candidates cannot all be taken. `str` of an int runs on one more than the int, which
-- has fewer digits.
--
-- The user of a request behind get_current_user is an argument of its route. A duration of an
-- access token, `iat` and `exp`, is up to the parameter that stands for PyJWT.
--
-- Not modelled: the HTTP messages of the AI gateway, logging, the endless loop of the SLA worker,
-- the web client and the migrations.
pub mod Prelude
pub mod Models
pub mod Session
pub mod Audit
pub mod Authz
pub mod Ticket
pub mod Operations
pub mod Crm
pub mod Workspaces
pub mod Communication
pub mod Portal
pub mod RateLimit
pub mod Config
pub mod Gateway
pub mod Knowledge
pub mod Observability
pub mod Lookup
pub mod Auth
pub mod Samples
pub mod Tests
