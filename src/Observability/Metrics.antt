-- ===== src/Observability/Metrics.antt =====
-- middleware/request_metrics.py. Requests overlap, and the lock makes the two methods steps.
use support_endpoint.Prelude.{
  ℕ, zero, suc, ◌+◌, ◌/◌, ℤ, pos, negsuc, String, Bool, ◌&&◌, Option, none, some, List, [], ◌∷◌,
  ◌++◌, map, str_eq, if◌then◌else◌,
}
use Prim.Native.String.{◌++◌ as text_append}
use support_endpoint.Workspaces.Decimal.{str}

-- A method and a status class, and a row of the Counter.
pub record Label : Type 0 where
  pub method : String
  pub status_class : String

pub record Count : Type 0 where
  pub label : Label
  pub number : ℕ

-- The Counter has its keys in the order of insertion; durations count microseconds, and their sum,
-- a float in the program, is exact.
pub record RequestMetrics : Type 0 where
  pub requests : List Count
  pub in_flight : ℤ
  pub duration : ℕ

unfoldable pub no_requests : RequestMetrics
no_requests = record { requests = []; in_flight = pos 0; duration = 0 }

-- `n + 1` and `n - 1` on ints.
unfoldable pub increment : ℤ → ℤ
increment (pos n) = pos (suc n)
increment (negsuc zero) = pos 0
increment (negsuc (suc n)) = negsuc n

unfoldable pub decrement : ℤ → ℤ
decrement (pos zero) = negsuc 0
decrement (pos (suc n)) = pos n
decrement (negsuc n) = negsuc (suc n)

abbrev pub label_eq : Label → Label → Bool
label_eq a b = str_eq a.method b.method && str_eq a.status_class b.status_class

-- `counter[label] += 1`
unfoldable pub count_one : Label → List Count → List Count
count_one label [] = record { label = label; number = 1 } ∷ []
count_one label (c ∷ cs) =
    let rest = count_one label cs in
    if label_eq c.label label then record c { number = c.number + 1 } ∷ cs else c ∷ rest

-- `counter[label]`
unfoldable pub number_of : Label → List Count → ℕ
number_of label [] = 0
number_of label (c ∷ cs) =
    let rest = number_of label cs in if label_eq c.label label then c.number else rest

-- f"{status_code // 100}xx"
unfoldable pub status_class_of : ℕ → String
status_class_of status_code = text_append (str (status_code / 100)) "xx"

unfoldable pub started : RequestMetrics → RequestMetrics
started m = record m { in_flight = increment m.in_flight }

-- A request that is over: its method, its status code, and how long it took.
pub record Finished : Type 0 where
  pub method : String
  pub status_code : ℕ
  pub duration : ℕ

abbrev pub label_of : Finished → Label
label_of r = record { method = r.method; status_class = status_class_of r.status_code }

unfoldable pub finished : Finished → RequestMetrics → RequestMetrics
finished r m = record {
  requests = count_one (label_of r) m.requests;
  in_flight = decrement m.in_flight;
  duration = m.duration + r.duration;
}

-- What `RequestMetricsMiddleware.dispatch` reports at the end: the status of the response, or 500 if
-- `call_next` raises.
unfoldable pub report : String → Option ℕ → ℕ → Finished
report method none duration = record { method = method; status_code = 500; duration = duration }
report method (some status_code) duration = record {
  method = method;
  status_code = status_code;
  duration = duration;
}

-- `"\n".join(lines) + "\n"`
unfoldable pub join_lines : List String → String
join_lines [] = "\n"
join_lines (line ∷ lines) = elim lines [
  | [] ↦ text_append line "\n"
  | next ∷ rest ↦ text_append line (text_append "\n" (join_lines lines))
]

-- `str` of an int.
unfoldable pub str_int : ℤ → String
str_int (pos n) = str n
str_int (negsuc n) = text_append "-" (str (suc n))

abbrev count_line : Count → String
count_line c = text_append "csp_http_requests_total{method=\"" (
    text_append c.label.method (
      text_append "\",status_class=\""
        (text_append c.label.status_class (text_append "\"} " (str c.number)))))

-- `sorted`, and a duration with six decimals, are parameters.
unfoldable pub render_prometheus :
    (List Count → List Count) → (ℕ → String) → RequestMetrics → String
unfolding join_lines
render_prometheus sorted seconds m = join_lines (
    ("# HELP csp_http_requests_total Total HTTP requests by method and status class."
      ∷ "# TYPE csp_http_requests_total counter" ∷ [])
    ++ (map count_line (sorted m.requests)
        ++ ("# HELP csp_http_requests_in_flight Current in-flight HTTP requests."
            ∷ "# TYPE csp_http_requests_in_flight gauge"
            ∷ text_append "csp_http_requests_in_flight " (str_int m.in_flight)
            ∷ "# HELP csp_http_request_duration_seconds_sum Cumulative HTTP request duration."
            ∷ "# TYPE csp_http_request_duration_seconds_sum counter"
            ∷ text_append "csp_http_request_duration_seconds_sum " (seconds m.duration)
            ∷ [])))
