-- ===== src/Errors.antt =====
-- The exceptions that cross a module's boundary: those of packages/shared/src/shared/errors.py,
-- and those that the database driver, the broker's client and pydantic raise.
use reimbursement_analyzer.Prelude
use reimbursement_analyzer.Prelude.{
  String, ◌≡◌, Bool, true, false, Option, none, some, List, [], ◌∷◌, map, str_eq, if◌then◌else◌,
}

pub data Exc : Type 0 where
  payload_too_large batch_invalid publish_failed filter_invalid review_invalid : String → Exc
  not_found not_eligible uuid_mismatch : Exc
  -- pydantic's ValidationError, with the `loc` of each error
  validation_error : List (List String) → Exc
  -- asyncpg's errors that name a constraint
  unique_violation check_violation foreign_key_violation : String → Exc
  -- any other exception: its type's name and its text
  other : String → String → Exc

-- `type(exc).__name__`
abbrev pub type_name : Exc → String
type_name (payload_too_large m) = "PayloadTooLarge"
type_name (batch_invalid m) = "BatchInvalid"
type_name (publish_failed m) = "PublishFailed"
type_name (filter_invalid m) = "ReimbursementFilterInvalid"
type_name (review_invalid m) = "ReviewInvalid"
type_name not_found = "ReimbursementNotFound"
type_name not_eligible = "ReimbursementNotEligible"
type_name uuid_mismatch = "ReimbursementUuidMismatch"
type_name (validation_error locs) = "ValidationError"
type_name (unique_violation c) = "UniqueViolationError"
type_name (check_violation c) = "CheckViolationError"
type_name (foreign_key_violation c) = "ForeignKeyViolationError"
type_name (other name m) = name

-- `getattr(exc, "constraint_name", None)`
abbrev pub constraint_name : Exc → Option String
constraint_name (unique_violation c) = some c
constraint_name (check_violation c) = some c
constraint_name (foreign_key_violation c) = some c
constraint_name _ = none

locations : List (List String) → String
locations locs = Prelude.Text.join ", " (map (Prelude.Text.join ".") locs)

with_detail : String → String → String
with_detail name detail =
    if str_eq detail "" then name else Prelude.Text.concat (name ∷ ": " ∷ detail ∷ [])

-- `sanitize`: the type's name and, for some kinds, where the error is; never a raw value.
unfoldable pub sanitize : Exc → String
unfolding locations with_detail
sanitize (validation_error locs) = with_detail "ValidationError" (locations locs)
sanitize exc = elim (constraint_name exc) [
  | none ↦ type_name exc
  | some c ↦ with_detail (type_name exc) c
]

abbrev pub duplicate_constraint : String
duplicate_constraint = "reimbursement_request_submitter_key"

-- `repository.is_duplicate`
unfoldable pub is_duplicate : Exc → Bool
is_duplicate (unique_violation c) = str_eq c duplicate_constraint
is_duplicate _ = false
