-- ===== src/Api/Response.antt =====
-- api/reimbursement/response.py: a row as the API shows it.
use reimbursement_analyzer.Prelude.{ℕ, String, Option, none, some, List, [], ◌∷◌}
use reimbursement_analyzer.Json.{Json, Fields, obj}
use reimbursement_analyzer.Decimal.{Decimal, nan}
use reimbursement_analyzer.Status
use reimbursement_analyzer.Errors.{validation_error}
use reimbursement_analyzer.World.{Action, Result, ok, raised}
use reimbursement_analyzer.Repository.Tables.{Row, Review, Verdict}
use reimbursement_analyzer.Repository.Page.{Enriched}

pub record HumanReviewSummary : Type 0 where
  pub status : Verdict
  pub reviewed_by : String
  pub reason : String
  pub created_at : ℕ

pub record ReimbursementItem : Type 0 where
  pub uuid : ℕ
  pub request_id : String
  pub submitted_by : Option String
  pub submitted_at : Option ℕ
  pub original_payload : Fields
  pub status : String
  pub receipts_value : Option Decimal
  pub receipts_date : Option ℕ
  pub currency : Option String
  pub decision_reason : Option String
  pub human_review_notes : Option String
  pub created_at : ℕ
  pub updated_at : ℕ
  pub last_human_review : Option HumanReviewSummary

abbrev pub summary : Option Review → Option HumanReviewSummary
summary none = none
summary (some v) = some (record {
  status = v.status;
  reviewed_by = v.reviewed_by;
  reason = v.reason;
  created_at = v.created_at;
})

abbrev pub item_of : Row → Fields → Option Review → ReimbursementItem
item_of r payload last = record {
  uuid = r.uuid;
  request_id = r.request_id;
  submitted_by = r.submitted_by;
  submitted_at = r.submitted_at;
  original_payload = payload;
  status = Status.value r.status;
  receipts_value = r.receipts_value;
  receipts_date = r.receipts_date;
  currency = r.currency;
  decision_reason = r.decision_reason;
  human_review_notes = r.human_review_notes;
  created_at = r.created_at;
  updated_at = r.updated_at;
  last_human_review = summary last;
}

-- pydantic takes a dict as payload, and finite numbers as a Decimal: a NUMERIC(14,2) that is not
-- finite is NaN.
unfoldable pub record_item : Row → Option Review → Json → Option Decimal → Result ReimbursementItem
record_item r last (obj payload) (some nan) =
    raised (validation_error (("receipts_value" ∷ []) ∷ []))
record_item r last (obj payload) value = ok (item_of r payload last)
record_item r last _ (some nan) =
    raised (validation_error (("original_payload" ∷ []) ∷ ("receipts_value" ∷ []) ∷ []))
record_item r last _ value = raised (validation_error (("original_payload" ∷ []) ∷ []))

-- `from_record`
unfoldable pub from_record : Enriched → Result ReimbursementItem
unfolding record_item
from_record e = record_item e.row e.last e.row.original_payload e.row.receipts_value

-- `[ReimbursementItem.from_record(row) for row in rows]`
unfoldable pub from_records : List Enriched → Result (List ReimbursementItem)
unfolding from_record
from_records [] = ok []
from_records (e ∷ es) = elim (from_record e) [
  | raised x ↦ raised x
  | ok item ↦ elim (from_records es) [ raised x ↦ raised x | ok items ↦ ok (item ∷ items) ]
]

-- `ReimbursementDetailResponse`
pub record DetailResponse : Type 0 where
  pub msg : String
  pub data_ : ReimbursementItem

abbrev pub detail : String → ReimbursementItem → DetailResponse
detail msg item = record { msg = msg; data_ = item }

-- A step of a route that leaves the state alone.
abbrev pub returned {ℓ} : {A : Type ℓ} → Result A → Action A
returned r w = (r, w)
