-- ===== src/Config.antt =====
-- The wire constants and the settings of packages/shared/src/shared/config.py and of
-- packages/publisher/src/publisher/config.py that the modelled code reads, and the publisher's
-- startup check.
use reimbursement_analyzer.Prelude
use reimbursement_analyzer.Prelude.{
  ℕ, suc, ℤ, pos, negsuc, String, Bool, true, false, Option, none, some, [], ◌∷◌, ltb,
  if◌then◌else◌,
}
use reimbursement_analyzer.Errors.{Exc, other}

abbrev pub request_topic : String
request_topic = "Request"

abbrev pub reimbursement_topic : String
reimbursement_topic = "Reimbursement"

abbrev pub max_batch_items : ℕ
max_batch_items = 500

abbrev pub max_list_limit : ℕ
max_list_limit = 500

abbrev pub max_body_bytes : ℕ
max_body_bytes = 1048576

abbrev pub max_retry : ℕ
max_retry = 3

-- The two settings that are integers are Python's: `int` reads a negative one too.
pub record Config : Type 0 where
  pub dsn : Option String
  pub pool_max_size : ℤ
  pub max_message_chars : ℕ
  pub item_concurrency : ℤ

-- `x < y`
unfoldable pub is_below : ℤ → ℤ → Bool
is_below (pos m) (pos n) = ltb m n
is_below (pos m) (negsuc n) = false
is_below (negsuc m) (pos n) = true
is_below (negsuc m) (negsuc n) = ltb n m

decimal_of : ℤ → String
decimal_of (pos n) = Prelude.Text.decimal n
decimal_of (negsuc n) = Prelude.Text.append "-" (Prelude.Text.decimal (suc n))

unfoldable pub has_pool : ℤ → ℤ → Option Exc
unfolding is_below decimal_of
has_pool size concurrency =
    if is_below size concurrency
    then some (
        other "RuntimeError" (
          Prelude.Text.concat (
            "pool_max_size ("
            ∷ decimal_of size
            ∷ ") is below item_concurrency ("
            ∷ decimal_of concurrency
            ∷ "): every in-flight item pins a connection for the length of a Kafka round-trip"
            ∷ [])))
    else none

-- `check_startup_config` of publisher/consumer.py; `none` lets the service start.
unfoldable pub check_startup_config : Config → Option Exc
unfolding has_pool
check_startup_config c = elim c.dsn [
  | none ↦ some (
      other "RuntimeError"
        "DATABASE_URL is not set: the publisher cannot reach Postgres without it")
  | some dsn ↦ has_pool c.pool_max_size c.item_concurrency
]
