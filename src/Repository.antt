-- ===== src/Repository.antt =====
-- packages/shared/src/shared/reimbursement/repository.py, statement by statement. Each function is
-- one call of the database; the queries read what the code passes on of their rows.
pub mod Tables
pub mod Consistent
pub mod Statements
pub mod Frames
pub mod Inserts
pub mod Page
use reimbursement_analyzer.Prelude.{
  ℕ, ◌+◌, String, Bool, true, false, ◌&&◌, Option, none, some, List, [], ◌∷◌, ◌++◌, ◌==◌, any,
  if◌then◌else◌,
}
use reimbursement_analyzer.Json.{Json, Fields, obj}
use reimbursement_analyzer.Decimal.{Decimal, to_numeric}
use reimbursement_analyzer.Status
use reimbursement_analyzer.Status.{Status, DecisionStatus}
use reimbursement_analyzer.Errors.{
  Exc, other, unique_violation, check_violation, foreign_key_violation, duplicate_constraint,
}
use reimbursement_analyzer.Env.{Env}
use reimbursement_analyzer.Models.Request.{
  ReimbursementRequest, Validated, valid, invalid, model_validate,
}
use reimbursement_analyzer.World.{
  World, Result, ok, raised, Action, pure, raise, gets, interact, sql_now, ◌>>=◌, ◌>>◌,
}
use Tables.{
  Row, Review, Verdict, Db, violated, review_violated, same_submission, find, replace, delete,
}

-- The parameters of the two INSERT statements.
pub record Columns : Type 0 where
  pub request_id : String
  pub submitted_by : String
  pub submitted_at : ℕ
  pub original_payload : Json

-- `_columns`: the identity columns of the validated model beside the item as it came.
unfoldable pub columns_of : Fields → Validated → Action Columns
columns_of item (valid r) = pure (record {
  request_id = r.request_id;
  submitted_by = r.submitted_by;
  submitted_at = r.submitted_at;
  original_payload = obj item;
})
columns_of item (invalid e) = raise e

unfoldable pub columns : Env → Fields → Action Columns
unfolding columns_of
columns env item = columns_of item (model_validate env item)

-- A new row: the defaults of the table, with a status and a reason.
abbrev pub new_row : ℕ → ℕ → Columns → Json → Status → Option String → Row
new_row uuid now c payload status reason = record {
  uuid = uuid;
  request_id = c.request_id;
  submitted_by = some c.submitted_by;
  submitted_at = some c.submitted_at;
  original_payload = payload;
  status = status;
  receipts_value = none;
  receipts_date = none;
  currency = none;
  decision_reason = reason;
  human_review_notes = none;
  created_at = now;
  updated_at = now;
}

abbrev pub add_row : Row → World → World
add_row r w = record w {
  db = record w.db { rows = w.db.rows ++ r ∷ []; next_uuid = w.db.next_uuid + 1 };
}

-- An INSERT of a row: its CHECKs, then the unique index.
unfoldable pub insert_row : Env → Row → Action ℕ
insert_row env r w = elim (violated (sql_now w) r) [
  | some c ↦ (raised (check_violation c), w)
  | none ↦
      if any (same_submission env r) w.db.rows
      then (raised (unique_violation duplicate_constraint), w)
      else (ok r.uuid, add_row r w)
]

-- `$4::text::jsonb`, and the row that the statement inserts.
unfoldable pub insert_columns : Env → Columns → Status → Option String → Action ℕ
unfolding insert_row
insert_columns env c status reason w = elim (env.jsonb c.original_payload) [
  | none ↦ (raised (other "InvalidTextRepresentationError" "invalid input syntax for type json"), w)
  | some payload ↦ insert_row env (new_row w.db.next_uuid (sql_now w) c payload status reason) w
]

unfoldable pub insert_pending : Env → Fields → Action ℕ
unfolding columns insert_columns
insert_pending env item = do
  c ← columns env item
  interact (insert_columns env c Status.pending none)

unfoldable pub insert_human_review : Env → Fields → String → Action ℕ
unfolding columns insert_columns
insert_human_review env item reason = do
  c ← columns env item
  interact (insert_columns env c Status.human_review (some reason))

unfoldable pub get_by_uuid : ℕ → Action (Option Row)
get_by_uuid uuid = interact (gets (λ w. find uuid w.db.rows))

-- COALESCE($n, column)
abbrev pub coalesce {ℓ} : {A : Type ℓ} → Option A → Option A → Option A
coalesce (some a) column = some a
coalesce none column = column

-- A value on its way into the NUMERIC(14,2) column.
abbrev pub store_value : Option Decimal → Result (Option Decimal)
store_value none = ok none
store_value (some x) = elim (to_numeric x) [
  | none ↦ raised (other "NumericValueOutOfRangeError" "numeric field overflow")
  | some y ↦ ok (some y)
]

-- An UPDATE of one row to `r`: its CHECKs, then the write. The index columns never change.
unfoldable pub write_row : Row → Action (Unit {0})
write_row r w = elim (violated (sql_now w) r) [
  | some c ↦ (raised (check_violation c), w)
  | none ↦ (ok tt, record w { db = record w.db { rows = replace r w.db.rows } })
]

-- The receipt columns that a caller may supply.
pub record Receipts : Type 0 where
  pub value : Option Decimal
  pub date : Option ℕ
  pub currency : Option String

abbrev pub no_receipts : Receipts
no_receipts = record { value = none; date = none; currency = none }

abbrev pub decided : Status → String → Option Decimal → Receipts → ℕ → Row → Row
decided status reason value x now r = record r {
  status = status;
  decision_reason = some reason;
  receipts_value = coalesce value r.receipts_value;
  receipts_date = coalesce x.date r.receipts_date;
  currency = coalesce x.currency r.currency;
  updated_at = now;
}

update_found : Option Row → Status → String → Receipts → Action Bool
unfolding write_row
update_found none status reason x w = (ok false, w)
update_found (some r) status reason x w = elim (store_value x.value) [
  | raised e ↦ (raised e, w)
  | ok value ↦ (write_row (decided status reason value x (sql_now w) r) >> pure true) w
]

-- `_UPDATE_DECISION`, and whether it affected a row
unfoldable pub update_decision : ℕ → DecisionStatus → String → Receipts → Action Bool
unfolding update_found
update_decision uuid status reason x =
    interact (λ w. update_found (find uuid w.db.rows) (Status.to_status status) reason x w)

-- What approve() and reject() return: the new row, with the status and the time before the update.
pub record Updated : Type 0 where
  pub row : Row
  pub from_status : Status
  pub from_updated_at : ℕ

unfoldable pub review_row :
    Row → Option Decimal → Status → String → Receipts → Action (Option Updated)
unfolding write_row
review_row r value status reason x w =
    let new = decided status reason value x (sql_now w) r in
    (write_row new
        >> pure
            (some (record { row = new; from_status = r.status; from_updated_at = r.updated_at })))
      w

unfoldable pub review_found :
    Option Row → List String → Status → String → Receipts → Action (Option Updated)
unfolding review_row
review_found none eligible status reason x w = (ok none, w)
review_found (some r) eligible status reason x w =
    if Status.any_of eligible r.status
    then elim (store_value x.value) [
      | raised e ↦ (raised e, w)
      | ok value ↦ review_row r value status reason x w
    ]
    else (ok none, w)

-- `_APPROVE`; its three receipt parameters are all given, so COALESCE takes each of them
unfoldable pub approve : ℕ → List String → Decimal → ℕ → String → String → Action (Option Updated)
unfolding review_found
approve uuid eligible value date currency reason = interact (λ w.
    review_found (find uuid w.db.rows) eligible Status.human_approved reason
      (record { value = some value; date = some date; currency = some currency }) w)

-- `_REJECT`
unfoldable pub reject : ℕ → List String → String → Receipts → Action (Option Updated)
unfolding review_found
reject uuid eligible reason x =
    interact (λ w. review_found (find uuid w.db.rows) eligible Status.human_rejected reason x w)

unfoldable pub find_reimbursement_state : ℕ → Action (Option Row)
find_reimbursement_state uuid = interact (gets (λ w. find uuid w.db.rows))

abbrev pub add_review : Review → World → World
add_review v w = record w {
  db = record w.db { reviews = w.db.reviews ++ v ∷ []; next_uuid = w.db.next_uuid + 1 };
}

unfoldable pub insert_review : Review → Action ℕ
insert_review v w = elim (review_violated v) [
  | some c ↦ (raised (check_violation c), w)
  | none ↦ elim (find v.reimbursement_uuid w.db.rows) [
    | none ↦ (raised (foreign_key_violation "human_review_reimbursement_uuid_fkey"), w)
    | some r ↦ (ok v.uuid, add_review v w)
  ]
]

abbrev pub new_review : ℕ → Verdict → String → String → World → Review
new_review uuid status reviewed_by reason w = record {
  uuid = w.db.next_uuid;
  reimbursement_uuid = uuid;
  status = status;
  reviewed_by = reviewed_by;
  reason = reason;
  created_at = sql_now w;
}

unfoldable pub record_human_review_decision : ℕ → Verdict → String → String → Action ℕ
unfolding insert_review
record_human_review_decision uuid status reviewed_by reason =
    interact (λ w. insert_review (new_review uuid status reviewed_by reason w) w)

-- Whether a row of `human_review` refers to the uuid (ON DELETE RESTRICT).
abbrev pub is_reviewed : ℕ → List Review → Bool
is_reviewed uuid = any (λ v. v.reimbursement_uuid == uuid)

abbrev is_pending : Status → Bool
is_pending Status.pending = true
is_pending _ = false

delete_found : Option Row → ℕ → Action Bool
delete_found none uuid w = (ok false, w)
delete_found (some r) uuid w =
    if is_pending r.status
    then (if is_reviewed uuid w.db.reviews
        then (raised (foreign_key_violation "human_review_reimbursement_uuid_fkey"), w)
        else (ok true, record w { db = record w.db { rows = delete uuid w.db.rows } }))
    else (ok false, w)

-- `_DELETE_PENDING`, and whether it removed a row
unfoldable pub delete_pending : ℕ → Action Bool
unfolding delete_found
delete_pending uuid = interact (λ w. delete_found (find uuid w.db.rows) uuid w)
