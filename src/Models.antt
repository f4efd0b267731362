-- ===== src/Models.antt =====
-- The messages and records that the services share (packages/shared/src/shared/models.py), and
-- the exceptions of shared/errors.py with those of the drivers.
pub mod Request
use reimbursement_analyzer.Prelude.{ℤ, ℕ, String, Option, List}
use reimbursement_analyzer.Json.{Fields}

-- `Stage`: where an attempt failed.
pub data Stage : Type 0 where
  db_insert publish resolve decide : Stage

abbrev pub stage_name : Stage → String
stage_name db_insert = "db-insert"
stage_name publish = "publish"
stage_name resolve = "resolve"
stage_name decide = "decide"

-- A time is a count of microseconds from the first day of year 1, in UTC.
pub record AttemptError : Type 0 where
  pub attempt : ℕ
  pub occurred_at : ℕ
  pub stage : Stage
  pub error_type : String
  pub message : String

pub record RequestEnvelope : Type 0 where
  pub retry : ℕ
  pub published_at : ℕ
  pub correlation_id : Option String
  pub errors : List AttemptError
  pub payload : List Fields

pub record ReimbursementEnvelope : Type 0 where
  pub uuid : ℕ
  pub retry : ℤ
  pub published_at : ℕ
  pub correlation_id : Option String
  pub errors : List AttemptError
