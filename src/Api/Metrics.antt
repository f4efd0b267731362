-- ===== src/Api/Metrics.antt =====
-- api/metrics.py: the gauge of the statuses, which a scrape refreshes at most every five seconds.
pub mod Gauge
use reimbursement_analyzer.Prelude.{
  ℕ, ◌+◌, ◌-◌, String, Option, none, some, List, [], ◌∷◌, map, ltb, str_eq, if◌then◌else◌,
}
use reimbursement_analyzer.Status
use reimbursement_analyzer.World.{World, Result, ok, raised, acquire}
use reimbursement_analyzer.Repository.Page.{count_by_status}

-- Five seconds, in microseconds.
abbrev pub gauge_refresh_min_interval : ℕ
gauge_refresh_min_interval = 5000000

-- The module's state: the time of the last refresh, and the gauge, one value for each label.
pub record Gauges : Type 0 where
  pub last_refreshed_at : ℕ
  pub status_count : List (String × ℕ)

-- `counts.get(status, 0)`
unfoldable pub get_or_zero : String → List (String × ℕ) → ℕ
get_or_zero status [] = 0
get_or_zero status ((name, n) ∷ rest) =
    let more = get_or_zero status rest in if str_eq name status then n else more

-- The loop over `ALL_STATUSES`
abbrev pub filled : List (String × ℕ) → List Status.Status → List (String × ℕ)
filled counts statuses = map (λ s. (Status.value s, get_or_zero (Status.value s) counts)) statuses

abbrev pub refreshed : ℕ → Gauges → Result (List (String × ℕ)) → Gauges
refreshed now g (raised e) = record g { last_refreshed_at = now }
refreshed now g (ok counts) = record {
  last_refreshed_at = now;
  status_count = filled counts Status.all_statuses;
}

-- `refresh_status_gauge` at the monotonic time `now`: a failure is logged as free text.
unfoldable pub refresh_status_gauge : ℕ → Gauges → World → Gauges × World
unfolding get_or_zero
refresh_status_gauge now g w =
    if ltb (now - g.last_refreshed_at) gauge_refresh_min_interval
    then (g, w)
    else (let (r, w') = acquire count_by_status w in (refreshed now g r, w'))
