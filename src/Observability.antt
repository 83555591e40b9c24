-- ===== src/Observability.antt =====
-- What an operator sees of the server: middleware/request_metrics.py, middleware/correlation.py,
-- api/v1/metrics.py and api/v1/health.py.
pub mod Metrics
pub mod Probes
pub mod Counts
