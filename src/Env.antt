-- ===== src/Env.antt =====
-- What the services call and this repository does not implement, as one record of functions: the
-- theorems hold for every choice of them.
use reimbursement_analyzer.Prelude.{ℕ, String, Option}
use reimbursement_analyzer.Json.{Json, Fields}
use reimbursement_analyzer.Decimal.{Decimal}
use reimbursement_analyzer.Errors.{Exc}
use reimbursement_analyzer.Models.{RequestEnvelope, ReimbursementEnvelope}

-- What `json.loads` makes of bytes: a value, a JSONDecodeError, or another exception (text that is
-- not UTF-8, a nesting that is too deep).
pub data Loaded : Type 0 where
  loaded : Json → Loaded
  not_json : Loaded
  load_failed : Exc → Loaded

pub record Env : Type 0 where
  -- PostgreSQL's lower(), and its cast of a JSON text to jsonb (`none`: the cast fails)
  pub lower : String → String
  pub jsonb : Json → Option Json
  -- pydantic's EmailStr, and AwareDatetime on a string
  pub email : String → Option String
  pub aware_datetime : String → Option ℕ
  -- pydantic's `model_dump_json` and `model_validate_json` of the two envelopes
  pub encode_request : RequestEnvelope → String
  pub decode_request : String → Option RequestEnvelope
  pub encode_reimbursement : ReimbursementEnvelope → String
  pub decode_reimbursement : String → Option ReimbursementEnvelope
  -- the ValidationError that a text raises which does not decode
  pub decode_error : String → Exc
  -- `datetime.isoformat`, `str(exc)` and `str(dict)`
  pub isoformat : ℕ → String
  pub message : Exc → String
  pub repr : Fields → String
  -- `date.isoformat` of an ordinal, and `str(value)` of a number
  pub date_isoformat : ℕ → String
  pub show : Decimal → String
  -- what a service's own clock shows at a time of the database's
  pub app_clock : ℕ → ℕ
  -- `json.loads` and `decode("utf-8", "replace")` of bytes, and `json.dumps` of a text or None
  pub loads_bytes : String → Loaded
  pub decode_replace : String → String
  pub dumps : Option String → String
  -- pydantic's JSON parser, and the `msg` of the first error that it reports for a body
  pub parse_json : String → Option Json
  pub first_msg : String → String
  -- pydantic's date, its finite Decimal and its UUID, read from a JSON value
  pub parse_date : Json → Option ℕ
  pub parse_decimal : Json → Option Decimal
  pub parse_uuid : Json → Option ℕ
