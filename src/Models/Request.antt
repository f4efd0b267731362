-- ===== src/Models/Request.antt =====
-- `ReimbursementRequest.model_validate`: the three declared fields of an item, with pydantic's
-- constraints on `request_id`. Other keys pass through (`extra="allow"`).
use reimbursement_analyzer.Prelude
use reimbursement_analyzer.Prelude.{
  ℕ, String, Bool, true, false, ◌&&◌, ◌||◌, Option, none, some, List, [], ◌∷◌, ◌++◌, leb, ◌==◌,
  if◌then◌else◌,
}
use reimbursement_analyzer.Json.{Json, str, Fields, get}
use reimbursement_analyzer.Errors.{Exc, validation_error}
use reimbursement_analyzer.Env.{Env}

pub record ReimbursementRequest : Type 0 where
  pub request_id : String
  pub submitted_by : String
  pub submitted_at : ℕ

abbrev pub max_request_id : ℕ
max_request_id = 128

-- `[A-Za-z0-9_-]`
abbrev pub is_id_code : ℕ → Bool
is_id_code c =
    (leb b'A' c && leb c b'Z')
    || (leb b'a' c && leb c b'z')
    || (leb b'0' c && leb c b'9')
    || c == b'_'
    || c == b'-'

abbrev pub is_request_id : String → Bool
is_request_id s =
    leb 1 (Prelude.Text.length s)
    && leb (Prelude.Text.length s) max_request_id
    && Prelude.Text.all_codes is_id_code s

request_id_field : Option Json → Option String
request_id_field (some (str s)) =
    let t = Prelude.Text.strip s in if is_request_id t then some t else none
request_id_field _ = none

submitted_by_field : Env → Option Json → Option String
submitted_by_field env (some (str s)) = env.email s
submitted_by_field env _ = none

-- `_require_str` refuses anything but a string before the datetime is parsed.
submitted_at_field : Env → Option Json → Option ℕ
submitted_at_field env (some (str s)) = env.aware_datetime s
submitted_at_field env _ = none

abbrev missing {ℓ} : {A : Type ℓ} → String → Option A → List (List String)
missing name none = (name ∷ []) ∷ []
missing name (some a) = []

pub data Validated : Type 0 where
  valid : ReimbursementRequest → Validated
  invalid : Exc → Validated

gather : Option String → Option String → Option ℕ → Validated
gather (some i) (some b) (some t) =
    valid (record { request_id = i; submitted_by = b; submitted_at = t })
gather i b t = invalid (
    validation_error
      (missing "request_id" i ++ (missing "submitted_by" b ++ missing "submitted_at" t)))

unfoldable pub model_validate : Env → Fields → Validated
unfolding request_id_field submitted_by_field submitted_at_field gather
model_validate env item =
    gather (request_id_field (get "request_id" item))
      (submitted_by_field env (get "submitted_by" item))
      (submitted_at_field env (get "submitted_at" item))
