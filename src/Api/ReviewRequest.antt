-- ===== src/Api/ReviewRequest.antt =====
-- api/reimbursement/update/validation.py: a reviewer's request and its validation.
use reimbursement_analyzer.Prelude
use reimbursement_analyzer.Prelude.{
  ℕ, String, Bool, true, false, Option, none, some, List, [], ◌∷◌, ◌++◌, str_eq, if◌then◌else◌,
}
use reimbursement_analyzer.Json.{Json, null, obj, str, Fields, get}
use reimbursement_analyzer.Decimal.{Decimal, nonneg}
use reimbursement_analyzer.Errors.{review_invalid}
use reimbursement_analyzer.Env.{Env}
use reimbursement_analyzer.World.{Result, ok, raised}
use reimbursement_analyzer.Repository.{Receipts}
use reimbursement_analyzer.Repository.Tables.{is_currency}

-- `ApproveReview` and `RejectReview`, which differ in whether the receipt's fields may be absent.
pub record ApproveReview : Type 0 where
  pub reason : String
  pub receipts_date : ℕ
  pub receipts_value : Decimal
  pub receipts_currency : String
  pub approved_by : String
  pub uuid : Option ℕ

pub record RejectReview : Type 0 where
  pub reason : String
  pub receipts : Receipts
  pub approved_by : String
  pub uuid : Option ℕ

pub data ReviewRequest : Type 0 where
  approve : ApproveReview → ReviewRequest
  reject : RejectReview → ReviewRequest

abbrev pub review_uuid : ReviewRequest → Option ℕ
review_uuid (approve r) = r.uuid
review_uuid (reject r) = r.uuid

abbrev pub reviewer : ReviewRequest → String
reviewer (approve r) = r.approved_by
reviewer (reject r) = r.approved_by

-- A field as pydantic reads it: `none` is an error.
text_field : Option Json → Option String
text_field (some (str s)) = some s
text_field _ = none

date_field : Env → Option Json → Option ℕ
date_field env none = none
date_field env (some j) = env.parse_date j

-- `Field(ge=0)` on a finite number
value_field : Env → Option Json → Option Decimal
value_field env none = none
value_field env (some j) = elim (env.parse_decimal j) [
  | none ↦ none
  | some x ↦ if nonneg x then some x else none
]

-- `StringConstraints(pattern=r"^[A-Z]{3}$")`
currency_field : Option Json → Option String
currency_field (some (str s)) = if is_currency s then some s else none
currency_field _ = none

email_field : Env → Option Json → Option String
email_field env (some (str s)) = env.email s
email_field env _ = none

-- `x: T | None = None`: an absent key and a null are None.
abbrev nullable {ℓ} : {A : Type ℓ} → (Option Json → Option A) → Option Json → Option (Option A)
nullable read none = some none
nullable read (some null) = some none
nullable read o = elim (read o) [ none ↦ none | some a ↦ some (some a) ]

uuid_field : Env → Option Json → Option (Option ℕ)
uuid_field env o = nullable (λ p. elim p [ none ↦ none | some j ↦ env.parse_uuid j ]) o

-- The field that an error names, where the value is missing.
abbrev failing {ℓ} : {A : Type ℓ} → String → Option A → List String
failing name none = name ∷ []
failing name (some a) = []

-- The models, or the names of the fields that failed in the order of their declaration.
pub data Reviewed : Type 0 where
  shaped : ReviewRequest → Reviewed
  misshaped : List String → Reviewed

gather_approve :
    Option String
    → Option ℕ
    → Option Decimal
    → Option String
    → Option String
    → Option (Option ℕ)
    → Reviewed
gather_approve (some reason) (some date) (some value) (some currency) (some by) (some uuid) =
    shaped (
      approve (record {
        reason = reason;
        receipts_date = date;
        receipts_value = value;
        receipts_currency = currency;
        approved_by = by;
        uuid = uuid;
      }))
gather_approve reason date value currency by uuid = misshaped (
    failing "reason" reason
    ++ failing "receipts_date" date
    ++ failing "receipts_value" value
    ++ failing "receipts_currency" currency
    ++ failing "approved_by" by
    ++ failing "uuid" uuid)

gather_reject :
    Option String
    → Option (Option ℕ)
    → Option (Option Decimal)
    → Option (Option String)
    → Option String
    → Option (Option ℕ)
    → Reviewed
gather_reject (some reason) (some date) (some value) (some currency) (some by) (some uuid) =
    shaped (
      reject (record {
        reason = reason;
        receipts = record { value = value; date = date; currency = currency };
        approved_by = by;
        uuid = uuid;
      }))
gather_reject reason date value currency by uuid = misshaped (
    failing "reason" reason
    ++ failing "receipts_date" date
    ++ failing "receipts_value" value
    ++ failing "receipts_currency" currency
    ++ failing "approved_by" by
    ++ failing "uuid" uuid)

as_approve : Env → Fields → Reviewed
unfolding text_field date_field value_field currency_field email_field uuid_field gather_approve
as_approve env fs =
    gather_approve (text_field (get "reason" fs)) (date_field env (get "receipts_date" fs))
      (value_field env (get "receipts_value" fs)) (currency_field (get "receipts_currency" fs))
      (email_field env (get "approved_by" fs)) (uuid_field env (get "uuid" fs))

as_reject : Env → Fields → Reviewed
unfolding text_field date_field value_field currency_field email_field uuid_field gather_reject
as_reject env fs =
    gather_reject (text_field (get "reason" fs))
      (nullable (date_field env) (get "receipts_date" fs))
      (nullable (value_field env) (get "receipts_value" fs))
      (nullable currency_field (get "receipts_currency" fs))
      (email_field env (get "approved_by" fs)) (uuid_field env (get "uuid" fs))

-- `_format_error`
unfoldable pub format_error : List String → String → String
format_error [] msg = Prelude.Text.concat ("body" ∷ ": " ∷ msg ∷ [])
format_error (part ∷ parts) msg =
    Prelude.Text.concat (Prelude.Text.join "." (part ∷ parts) ∷ ": " ∷ msg ∷ [])

-- The `loc` of the first error: the tag of the union, and the field.
abbrev first_loc : String → List String → List String
first_loc tag [] = tag ∷ []
first_loc tag (name ∷ names) = tag ∷ name ∷ []

abbrev or_invalid : String → String → Reviewed → Result ReviewRequest
or_invalid tag msg (shaped r) = ok r
or_invalid tag msg (misshaped names) =
    raised (review_invalid (format_error (first_loc tag names) msg))

-- The discriminated union: the `status` chooses the model.
by_status : Env → String → Fields → Option Json → Result ReviewRequest
unfolding as_approve as_reject
by_status env msg fs (some (str s)) =
    if str_eq s "approved"
    then or_invalid "approved" msg (as_approve env fs)
    else if str_eq s "rejected"
    then or_invalid "rejected" msg (as_reject env fs)
    else raised (review_invalid (format_error [] msg))
by_status env msg fs _ = raised (review_invalid (format_error [] msg))

review_of : Env → String → Option Json → Result ReviewRequest
unfolding by_status
review_of env msg (some (obj fs)) = by_status env msg fs (get "status" fs)
review_of env msg _ = raised (review_invalid (format_error [] msg))

unfoldable pub validate_review : Env → String → Result ReviewRequest
unfolding review_of
validate_review env raw = review_of env (env.first_msg raw) (env.parse_json raw)
