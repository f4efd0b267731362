-- ===== src/UseCases/ListReimbursements.antt =====
-- use_cases/list_reimbursements.py: the gates of the filter and of the pagination, then the page.
pub mod Pages
pub mod Gates
use reimbursement_analyzer.Prelude
use reimbursement_analyzer.Prelude.{
  ℤ, String, Bool, true, false, not, Option, none, some, List, [], ◌∷◌, any, str_eq, is_between,
  is_negative, magnitude, if◌then◌else◌,
}
use reimbursement_analyzer.Errors.{filter_invalid}
use reimbursement_analyzer.Config.{max_list_limit}
use reimbursement_analyzer.World.{Action, raise}
use reimbursement_analyzer.Repository.Page.{Enriched, fetch_reimbursement_page}

-- `VALID_STATUSES`, in the order of `sorted`
abbrev pub valid_statuses : List String
valid_statuses =
    "auto-approved" ∷ "auto-rejected" ∷ "human-approved" ∷ "human-rejected" ∷ "human-review" ∷ []

abbrev pub is_valid_status : String → Bool
is_valid_status s = any (str_eq s) valid_statuses

-- `statuses is not None and any(status not in VALID_STATUSES for status in statuses)`
abbrev pub has_unknown : Option (List String) → Bool
has_unknown none = false
has_unknown (some statuses) = any (λ s. not (is_valid_status s)) statuses

abbrev pub status_refused : String
status_refused =
    "status must be one of ['auto-approved', 'auto-rejected', 'human-approved', 'human-rejected', 'human-review']"

abbrev pub limit_refused : String
limit_refused =
    Prelude.Text.concat ("limit must be between 0 and " ∷ Prelude.Text.decimal max_list_limit ∷ [])

abbrev pub offset_refused : String
offset_refused = "offset must not be negative"

unfoldable pub list_reimbursements : Option (List String) → ℤ → ℤ → Action (List Enriched)
list_reimbursements statuses limit offset =
    if has_unknown statuses
    then raise (filter_invalid status_refused)
    else if not (is_between max_list_limit limit)
    then raise (filter_invalid limit_refused)
    else if is_negative offset
    then raise (filter_invalid offset_refused)
    else fetch_reimbursement_page statuses (magnitude limit) (magnitude offset)
