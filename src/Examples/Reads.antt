-- ===== src/Examples/Reads.antt =====
-- The theorems on what is read, at concrete tables.
use reimbursement_analyzer.Repository.{insert_pending}
use reimbursement_analyzer.Prelude
use reimbursement_analyzer.Prelude.{
  ℕ, ℤ, pos, negsuc, ◌-◌, ◌<◌, ◌≤◌, String, ◌≡◌, ◌≢◌, refl, ◌⊎◌, Option, none, some, List, [], ◌∷◌,
  All, length, arith, magnitude,
}
use mathlib.Core.List.{Perm}
use reimbursement_analyzer.Status
use reimbursement_analyzer.Errors.{filter_invalid}
use reimbursement_analyzer.World.{World, Result, ok, raised}
use reimbursement_analyzer.Repository.Tables.{Row, Review, approved, rejected}
use reimbursement_analyzer.Repository.Consistent.{IsChecked}
use reimbursement_analyzer.Repository.Statements.{Consistent}
use reimbursement_analyzer.Repository.Page.{
  Enriched, matching, last_review, fetch_reimbursement_page,
}
use reimbursement_analyzer.Repository.Page.Latest.{IsLatest, last_review-IsLatest}
use reimbursement_analyzer.UseCases.ListReimbursements.{list_reimbursements}
use reimbursement_analyzer.UseCases.ListReimbursements.Gates.{
  IsAccepted, list_reimbursements-IsAccepted,
}
use reimbursement_analyzer.UseCases.ListReimbursements.Pages.{
  IsPage, rows_of, list_reimbursements-complete, list_reimbursements-IsPage,
}
use reimbursement_analyzer.UseCases.GetReimbursement.{get_reimbursement}
use reimbursement_analyzer.UseCases.GetReimbursement.Agreement.{list_reimbursements-get}
use reimbursement_analyzer.Api.Response.{item_of}
use reimbursement_analyzer.Api.Listing.{ListResponse, parse_status_filter, get_reimbursements}
use reimbursement_analyzer.Api.Listing.Filter.{
  HasNoComma, parse_status_filter-join, join-parse_status_filter,
}
use reimbursement_analyzer.Api.Listing.Answered.{IsListed, get_reimbursements-IsListed}
use reimbursement_analyzer.Api.Metrics.{Gauges, gauge_refresh_min_interval, refresh_status_gauge}
use reimbursement_analyzer.Api.Metrics.Gauge.{IsRefreshed, refresh_status_gauge-IsRefreshed}
use reimbursement_analyzer.Examples.{item, env, empty_world, row_of, world_of, failing_world}

-- Two rows, the older one with a review.
abbrev older : Row
older = row_of Status.human_rejected

abbrev newest : Row
newest = record (row_of Status.auto_approved) { uuid = 1; request_id = "r-2"; created_at = 5 }

abbrev rejection : Review
rejection = record {
  uuid = 2;
  reimbursement_uuid = 0;
  status = rejected;
  reviewed_by = "eva@example.com";
  reason = "no receipt";
  created_at = 7;
}

abbrev listed_world : World
listed_world =
    world_of (record { rows = older ∷ newest ∷ []; reviews = rejection ∷ []; next_uuid = 3 })

abbrev shown_page : List Enriched
shown_page =
    record { row = newest; last = none } ∷ record { row = older; last = some rejection } ∷ []

abbrev rejected_filter : Option (List String)
rejected_filter = some ("human-rejected" ∷ "auto-approved" ∷ [])

list_reimbursements-IsPage_example : IsPage rejected_filter 10 listed_world.db shown_page
unfolding list_reimbursements fetch_reimbursement_page reimbursement_analyzer.World.interact
    last_review
list_reimbursements-IsPage_example =
    list_reimbursements-IsPage rejected_filter (pos 10) (pos 0) listed_world shown_page refl

-- Two rows of one time, which the query finds in the other order.
abbrev tied_world : World
tied_world =
    record (world_of (record {
      rows = older ∷ record newest { created_at = 0 } ∷ [];
      reviews = [];
      next_uuid = 3;
    })) { scan = 1 ∷ [] }

abbrev tied_page : List Enriched
tied_page =
    record { row = record newest { created_at = 0 }; last = none }
    ∷ record { row = older; last = none }
    ∷ []

list_reimbursements-complete_example : Perm (rows_of tied_page) (matching none tied_world.db.rows)
unfolding matching list_reimbursements fetch_reimbursement_page
    reimbursement_analyzer.World.interact last_review
list_reimbursements-complete_example =
    list_reimbursements-complete none 2 tied_world tied_page (omega arith) refl

list_reimbursements-IsAccepted_example :
    (IsAccepted none (pos 501) (negsuc 0)
      × (list_reimbursements none (pos 501) (negsuc 0) failing_world
          ≡ fetch_reimbursement_page none 501 1 failing_world))
    ⊎ (¬ IsAccepted none (pos 501) (negsuc 0)
        × (m : String) × (list_reimbursements none (pos 501) (negsuc 0) failing_world
            ≡ (raised (filter_invalid m), failing_world)))
list_reimbursements-IsAccepted_example =
    list_reimbursements-IsAccepted none (pos 501) (negsuc 0) failing_world

older-IsChecked : IsChecked older
unfolding reimbursement_analyzer.Repository.Tables.is_address
older-IsChecked = record {
  currency = refl;
  receipts_value = refl;
  request_id = omega arith;
  submitted_by = refl;
}

newest-IsChecked : IsChecked newest
unfolding reimbursement_analyzer.Repository.Tables.is_address
newest-IsChecked = record {
  currency = refl;
  receipts_value = refl;
  request_id = omega arith;
  submitted_by = refl;
}

Consistent-listed : Consistent env listed_world
unfolding reimbursement_analyzer.Repository.Tables.same_submission
Consistent-listed = record {
  distinct =
      (older-IsChecked, omega arith, refl, refl, (newest-IsChecked, omega arith, refl, refl, tt));
  referring = (refl, tt);
}

list_reimbursements-get_example :
    All
      (λ e. (get_reimbursement e.row.uuid (record listed_world { events = [] })).0 ≡ ok e)
      shown_page
unfolding list_reimbursements fetch_reimbursement_page reimbursement_analyzer.World.interact
    last_review
list_reimbursements-get_example =
    list_reimbursements-get env none (pos 10) (pos 0) listed_world listed_world shown_page
      Consistent-listed refl refl

-- The state after one insert into empty tables.
abbrev inserted_world : World
inserted_world = (insert_pending env item empty_world).1

abbrev inserted_page : List Enriched
inserted_page =
    record {
      row = record (row_of Status.pending) { created_at = 100; updated_at = 100 };
      last = none;
    }
    ∷ []

last_review-IsLatest_example :
    ((last_review 0 (rejection ∷ []) ≡ none) × All (λ u. u.reimbursement_uuid ≢ 0) (rejection ∷ []))
    ⊎ ((v : Review) × (last_review 0 (rejection ∷ []) ≡ some v) × IsLatest 0 (rejection ∷ []) v)
last_review-IsLatest_example = last_review-IsLatest 0 (rejection ∷ [])

parse_status_filter-join_example :
    All HasNoComma ("human-review" ∷ "" ∷ "pending" ∷ [])
    × (Prelude.Text.join "," ("human-review" ∷ "" ∷ "pending" ∷ []) ≡ "human-review,,pending")
unfolding parse_status_filter reimbursement_analyzer.Prelude.Text.split_on
parse_status_filter-join_example =
    parse_status_filter-join "human-review,,pending" ("human-review" ∷ "" ∷ "pending" ∷ []) refl

join-parse_status_filter_example :
    parse_status_filter (Prelude.Text.join "," ("human-review" ∷ "pending" ∷ []) ∷ [])
    ≡ ok (some ("human-review" ∷ "pending" ∷ []))
unfolding reimbursement_analyzer.Prelude.Text.join reimbursement_analyzer.Prelude.Text.append
join-parse_status_filter_example =
    join-parse_status_filter "human-review" ("pending" ∷ []) (refl, (refl, tt)) (λ e. cc)

abbrev listed_response : ListResponse
listed_response = record {
  msg = "2 reimbursement(s) found";
  data_ = item_of newest item none ∷ item_of older item (some rejection) ∷ [];
}

get_reimbursements-IsListed_example :
    IsListed ("human-rejected,auto-approved" ∷ []) (pos 10) (pos 0) listed_world listed_response
unfolding get_reimbursements reimbursement_analyzer.World.acquire list_reimbursements
    reimbursement_analyzer.Prelude.Text.split_on fetch_reimbursement_page
    reimbursement_analyzer.Api.Response.from_records reimbursement_analyzer.Prelude.Text.concat
    last_review reimbursement_analyzer.Prelude.Text.decimal
get_reimbursements-IsListed_example =
    get_reimbursements-IsListed ("human-rejected,auto-approved" ∷ []) (pos 10) (pos 0) listed_world
      listed_response refl

abbrev gauges : Gauges
gauges = record { last_refreshed_at = 0; status_count = [] }

refresh_status_gauge-IsRefreshed_example :
    ((6000000 - 0 < gauge_refresh_min_interval)
      × (refresh_status_gauge 6000000 gauges listed_world ≡ (gauges, listed_world)))
    ⊎ IsRefreshed 6000000 gauges listed_world (refresh_status_gauge 6000000 gauges listed_world)
refresh_status_gauge-IsRefreshed_example =
    refresh_status_gauge-IsRefreshed 6000000 gauges listed_world
