-- ===== src/Repository/Tables.antt =====
-- The two tables (packages/api/src/api/migrations/0001 and 0002) and their constraints.
use reimbursement_analyzer.Prelude
use reimbursement_analyzer.Prelude.{
  ℕ, zero, suc, ◌+◌, ◌/◌, String, Bool, true, false, not, ◌&&◌, ◌||◌, Option, none, some, List, [],
  ◌∷◌, ◌++◌, leb, ltb, ◌==◌, str_eq, if◌then◌else◌,
}
use reimbursement_analyzer.Json.{Json}
use reimbursement_analyzer.Decimal.{Decimal, nonneg, nan}
use reimbursement_analyzer.Status.{Status}
use reimbursement_analyzer.Env.{Env}

-- A row of `reimbursement`.
pub record Row : Type 0 where
  pub uuid : ℕ
  pub request_id : String
  pub submitted_by : Option String
  pub submitted_at : Option ℕ
  pub original_payload : Json
  pub status : Status
  pub receipts_value : Option Decimal
  -- a date is its ordinal, the number of days up to it from the first of year 1
  pub receipts_date : Option ℕ
  pub currency : Option String
  pub decision_reason : Option String
  pub human_review_notes : Option String
  pub created_at : ℕ
  pub updated_at : ℕ

-- `status` of `human_review`.
pub data Verdict : Type 0 where
  approved rejected : Verdict

-- A row of `human_review`.
pub record Review : Type 0 where
  pub uuid : ℕ
  pub reimbursement_uuid : ℕ
  pub status : Verdict
  pub reviewed_by : String
  pub reason : String
  pub created_at : ℕ

-- uuidv7() is a counter: it never returns a value twice.
pub record Db : Type 0 where
  pub rows : List Row
  pub reviews : List Review
  pub next_uuid : ℕ

-- The day of a time, as CURRENT_DATE and `datetime.date()` give it in UTC.
abbrev pub day : ℕ → ℕ
day t = t / 86400000000 + 1

abbrev pub hour : ℕ
hour = 3600000000

-- `[:space:]`
abbrev is_posix_space : ℕ → Bool
is_posix_space c = (leb 9 c && leb c 13) || c == 32

abbrev is_local : ℕ → Bool
is_local c = not (c == b'@' || is_posix_space c)

-- `.+\..+`, after one character or more that are not at the start
abbrev has_dot : String → Bool
has_dot String.[] = false
has_dot (String.◌∷◌ c String.[]) = false
has_dot (String.◌∷◌ c (String.◌∷◌ d s)) =
    (Prim.Native.Char.code d == b'.' && leb 1 (Prelude.Text.length s)) || has_dot (String.◌∷◌ d s)

-- Splits at the first at sign.
abbrev after_at : String → Option String
after_at String.[] = none
after_at (String.◌∷◌ c s) = if Prim.Native.Char.code c == b'@' then some s else after_at s

abbrev starts_at : String → Bool
starts_at String.[] = true
starts_at (String.◌∷◌ c s) = Prim.Native.Char.code c == b'@'

-- `^[^@[:space:]]+@[^@[:space:]]+\.[^@[:space:]]+$`, and at most 254 characters
unfoldable pub is_address : String → Bool
is_address s =
    leb (Prelude.Text.length s) 254
    && not (starts_at s)
    && not (Prelude.Text.any_code is_posix_space s)
    && elim (after_at s) [
      | none ↦ false
      | some domain ↦ Prelude.Text.all_codes is_local domain && has_dot domain
    ]

-- `^[A-Z]{3}$`
unfoldable pub is_currency : String → Bool
is_currency s =
    Prelude.Text.length s == 3 && Prelude.Text.all_codes (λ c. leb b'A' c && leb c b'Z') s

-- `x IS NULL OR p(x)`
abbrev pub null_or {ℓ} : {A : Type ℓ} → (A → Bool) → Option A → Bool
null_or p none = true
null_or p (some a) = p a

-- `receipts_value >= 0`, where PostgreSQL's NaN is above every number
abbrev pub value_ok : Decimal → Bool
value_ok nan = true
value_ok x = nonneg x

-- The first CHECK that a row violates at the time `now`, in the order of the constraints' names.
-- `reimbursement_status_check` has no line: `Status` has only its values.
unfoldable pub violated : ℕ → Row → Option String
violated now r =
    if not (null_or is_currency r.currency)
    then some "reimbursement_currency_check"
    else if not (null_or (λ d. leb d (day now)) r.receipts_date)
    then some "reimbursement_receipts_date_check"
    else if not (null_or value_ok r.receipts_value)
    then some "reimbursement_receipts_value_check"
    else if not (leb (Prelude.Text.length r.request_id) 64)
    then some "reimbursement_request_id_length_check"
    else if not (null_or (λ t. leb t (now + hour)) r.submitted_at)
    then some "reimbursement_submitted_at_check"
    else if not (null_or is_address r.submitted_by)
    then some "reimbursement_submitted_by_check"
    else none

-- `human_review_reviewed_by_check`
abbrev pub review_violated : Review → Option String
review_violated v = if is_address v.reviewed_by then none else some "human_review_reviewed_by_check"

-- NULLS NOT DISTINCT
abbrev pub same_key : Option String → Option String → Bool
same_key none none = true
same_key (some a) (some b) = str_eq a b
same_key _ _ = false

abbrev pub lowered : Env → Option String → Option String
lowered env none = none
lowered env (some s) = some (env.lower s)

-- The unique index on (request_id, lower(submitted_by)).
unfoldable pub same_submission : Env → Row → Row → Bool
same_submission env r s =
    str_eq r.request_id s.request_id
    && same_key (lowered env r.submitted_by) (lowered env s.submitted_by)

-- `WHERE uuid = $1`: the primary key makes it one row at most.
abbrev pub find : ℕ → List Row → Option Row
find u [] = none
find u (r ∷ rs) = if r.uuid == u then some r else find u rs

abbrev pub replace : Row → List Row → List Row
replace r [] = []
replace r (s ∷ ss) = if s.uuid == r.uuid then r ∷ replace r ss else s ∷ replace r ss

abbrev pub delete : ℕ → List Row → List Row
delete u [] = []
delete u (r ∷ rs) = let rest = delete u rs in if r.uuid == u then rest else r ∷ rest
