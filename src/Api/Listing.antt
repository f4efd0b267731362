-- ===== src/Api/Listing.antt =====
-- api/reimbursement/list and api/reimbursement/get: the two routes that only read.
pub mod Filter
pub mod Answered
use reimbursement_analyzer.Prelude
use reimbursement_analyzer.Prelude.{
  ℕ, ℤ, String, Bool, true, false, Option, none, some, List, [], ◌∷◌, length, str_eq, if◌then◌else◌,
}
use reimbursement_analyzer.Json.{bool, int, str, obj, dict}
use reimbursement_analyzer.Errors.{Exc, filter_invalid}
use reimbursement_analyzer.World.{
  Result, ok, raised, Action, pure, raise, acquire, log, try, ◌>>=◌, ◌>>◌,
}
use reimbursement_analyzer.Repository.Page.{Enriched}
use reimbursement_analyzer.UseCases.PublishPending.{uuid_text}
use reimbursement_analyzer.UseCases.ListReimbursements.{list_reimbursements}
use reimbursement_analyzer.UseCases.GetReimbursement.{is_not_found, get_reimbursement}
use reimbursement_analyzer.Api.Response.{
  ReimbursementItem, DetailResponse, detail, from_record, from_records, returned,
}

-- `parse_status_filter` on all values of the query parameter.
unfoldable pub parse_status_filter : List String → Result (Option (List String))
parse_status_filter [] = ok none
parse_status_filter (value ∷ []) =
    if str_eq value "" then ok none else ok (some (Prelude.Text.split_on b',' value))
parse_status_filter (value ∷ other ∷ rest) =
    raised (filter_invalid "status must be supplied once, comma-separated for multiple values")

-- `ReimbursementListResponse`
pub record ListResponse : Type 0 where
  pub msg : String
  pub data_ : List ReimbursementItem

-- `status or "none"`, of the values that the filter takes.
abbrev shown_filter : List String → String
shown_filter [] = "none"
shown_filter (value ∷ rest) = if str_eq value "" then "none" else value

unfoldable pub respond : List String → List Enriched → Action ListResponse
respond values rows = do
  log (
      obj (
        dict (
          ("event", str "reimbursement.list_queried")
          ∷ ("status_filter", str (shown_filter values))
          ∷ ("result_count", int (length rows))
          ∷ [])))
  items ← returned (from_records rows)
  pure (record {
    msg = Prelude.Text.concat (Prelude.Text.decimal (length rows) ∷ " reimbursement(s) found" ∷ []);
    data_ = items;
  })

-- The route GET /api/v1/reimbursement.
unfoldable pub get_reimbursements : List String → ℤ → ℤ → Action ListResponse
unfolding parse_status_filter respond
get_reimbursements values limit offset = do
  statuses ← returned (parse_status_filter values)
  rows ← acquire (list_reimbursements statuses limit offset)
  respond values rows

unfoldable pub log_detail : ℕ → Bool → Action (Unit {0})
log_detail uuid found = log (
    obj (
      dict (
        ("event", str "reimbursement.detail_queried")
        ∷ ("uuid", uuid_text uuid)
        ∷ ("found", bool found)
        ∷ [])))

unfoldable pub log_missing : ℕ → Exc → Action Enriched
unfolding log_detail
log_missing uuid e = if is_not_found e then (log_detail uuid false >> raise e) else raise e

unfoldable pub found_detail : ℕ → Enriched → Action DetailResponse
unfolding log_detail
found_detail uuid row = do
  log_detail uuid true
  item ← returned (from_record row)
  pure (detail "reimbursement found" item)

-- The route GET /api/v1/reimbursement/{uuid}.
unfoldable pub get_reimbursement_by_uuid : ℕ → Action DetailResponse
unfolding log_missing found_detail
get_reimbursement_by_uuid uuid = do
  row ← acquire (try (get_reimbursement uuid) (log_missing uuid) pure)
  found_detail uuid row
