-- ===== src/Tests/Observability.antt =====
-- The theorem about the metrics, for three requests that overlap.
use support_endpoint.Prelude.{[], ◌∷◌, some, none}
use support_endpoint.Observability.Metrics.{Finished, no_requests, started, finished, report}
use support_endpoint.Observability.Counts.{Counts, Serving, Serving-Counts}

abbrev created : Finished
created = report "POST" (some 201) 40

abbrev raised : Finished
raised = report "GET" none 30

Serving-Counts_example :
    Counts 1
      (raised ∷ created ∷ [])
      (finished raised (finished created (started (started (started no_requests)))))
Serving-Counts_example = Serving-Counts (
    Serving.finishes raised
      (Serving.finishes created (Serving.starts (Serving.starts (Serving.starts Serving.idle)))))
