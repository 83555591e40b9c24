-- ===== src/Observability/Counts.antt =====
-- The metrics of requests that overlap.
use support_endpoint.Prelude.{
  ℕ, suc, ◌+◌, ◌≡◌, refl, ap, ◌∙◌, pos, true, List, [], ◌∷◌, select, length, arith, Bool-cases, inl,
  inr, eq_iff, if◌then◌else◌,
}
use support_endpoint.Observability.Metrics.{
  Label, Count, RequestMetrics, Finished, no_requests, increment, decrement, count_one, number_of,
  label_of, label_eq, started, finished,
}

-- The metrics that may be seen while so many requests are in flight, after these ones have finished.
pub data Serving : ℕ → List Finished → RequestMetrics → Type 0 where
  idle : Serving 0 [] no_requests
  starts :
      {n : ℕ} {rs : List Finished} {m : RequestMetrics}
      → Serving n rs m
      → Serving (suc n) rs (started m)
  finishes :
      {n : ℕ} {rs : List Finished} {m : RequestMetrics} (r : Finished)
      → Serving (suc n) rs m
      → Serving n (r ∷ rs) (finished r m)

unfoldable pub total_duration : List Finished → ℕ
total_duration [] = 0
total_duration (r ∷ rs) = r.duration + total_duration rs

label_eq_refl : (a : Label) → label_eq a a ≡ true
label_eq_refl a =
    rw ((eq_iff a.method a.method).1 refl, (eq_iff a.status_class a.status_class).1 refl) refl

label_eq_same : (a b c : Label) → label_eq a b ≡ true → label_eq a c ≡ label_eq b c
label_eq_same a b c h =
    rw
      (
        (eq_iff a.method b.method).0 (ground arith),
        (eq_iff a.status_class b.status_class).0 (ground arith),
      )
      refl

-- One more of a label, and of no other.
number_of-count_one :
    (l k : Label) (cs : List Count)
    → number_of k (count_one l cs) ≡ (if label_eq l k then number_of k cs + 1 else number_of k cs)
unfolding number_of count_one
number_of-count_one l k [] = refl
number_of-count_one l k (c ∷ cs) = elim (Bool-cases (label_eq c.label l)) [
  | inl e ↦ rw e (ground (arith, label_eq_same c.label l k e))
  | inr e ↦ rw e (
      ground (
        arith,
        number_of-count_one l k cs,
        e,
        label_eq_same c.label k l,
        label_eq_same l k l,
        label_eq_refl l,
      ))
]

-- What the metrics say while n requests are in flight, after the requests rs.
abbrev pub Counts : ℕ → List Finished → RequestMetrics → Type 0
Counts n rs m =
    (m.in_flight ≡ pos n)
    × (m.duration ≡ total_duration rs)
    × ((l : Label)
        → number_of l m.requests ≡ length (select (λ (r : Finished). label_eq (label_of r) l) rs))

-- However requests overlap, while n are in flight the gauge says n, and for each method and status
-- class the counter is how many requests of it have finished, and the sum of durations is theirs.
pub Serving-Counts :
    {n : ℕ} {rs : List Finished} {m : RequestMetrics} → Serving n rs m → Counts n rs m
unfolding no_requests number_of select started increment finished decrement total_duration
Serving-Counts idle = (refl, refl, λ l. refl)
Serving-Counts (starts h) =
    let (gauge, sum, counts) = Serving-Counts h in (ap increment gauge, sum, counts)
Serving-Counts (finishes {m = m} r h) =
    let (gauge, sum, counts) = Serving-Counts h in
    (
      ap decrement gauge,
      omega (arith, sum),
      λ l. number_of-count_one (label_of r) l m.requests ∙ ground (arith, counts l),
    )
