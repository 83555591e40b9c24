-- ===== src/Operations.antt =====
-- Operations: services/operations_service.py and repositories/operations_repo.py (support tasks,
-- SLA policies, SLA clocks of tickets, notifications), and the cycle of workers/sla_scheduler.py.
pub mod Repo
pub mod Clock
pub mod Service
pub mod Evaluation
pub mod Scheduler
pub mod Outages
pub mod Alerts
pub mod Tasks
pub mod Router
pub mod Attach
pub mod Coverage
pub mod Visits
