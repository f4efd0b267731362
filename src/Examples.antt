-- ===== src/Examples.antt =====
-- Concrete services, messages and states.
mod Publisher
mod Agent
mod Reads
mod Api
mod Settings
use reimbursement_analyzer.Prelude.{
  ℕ, zero, suc, pos, ◌+◌, ◌<◌, ◌≤◌, String, ◌≡◌, ◌≢◌, refl, Bool, true, false, Option, none, some,
  List, [], ◌∷◌, length, arith, str_eq, if◌then◌else◌,
}
use reimbursement_analyzer.Prelude
use reimbursement_analyzer.Json.{Json, str, arr, obj, nil, cons, Fields, dict}
use reimbursement_analyzer.Decimal.{Decimal, above}
use reimbursement_analyzer.Status
use reimbursement_analyzer.Errors.{other}
use reimbursement_analyzer.Models.{AttemptError, RequestEnvelope, ReimbursementEnvelope}
use reimbursement_analyzer.Env.{Env, not_json}
use reimbursement_analyzer.Config.{Config}
use reimbursement_analyzer.World.{World, Event, fine, before, Result, ok, raised, Poll, message}
use reimbursement_analyzer.Repository.Tables.{Row, Db, approved, rejected}
use reimbursement_analyzer.Repository.{no_receipts}
use reimbursement_analyzer.World.Gives.{core}
use reimbursement_analyzer.Repository.Statements.{Consistent}
use reimbursement_analyzer.FailureLog.{cut_record}
use reimbursement_analyzer.FailureLog.Bounds.{Fits, cut_record-Fits}
use reimbursement_analyzer.UseCases.PublishPending.{publish_pending}
use reimbursement_analyzer.UseCases.PublishPending.Outbox.{Outbox, publish_pending-Outbox}
use reimbursement_analyzer.UseCases.PublishPending.Delivers.{publish_pending-delivers}
use reimbursement_analyzer.World.Steady.{steady}
use reimbursement_analyzer.Publisher.Processing
use reimbursement_analyzer.Publisher.Processing.{ItemOutcome, process_item, escalate_item}
use reimbursement_analyzer.Publisher.Processing.NeverRaises.{handle_message-length}
use reimbursement_analyzer.Publisher.Processing.Ceiling.{
  RetryBounded, handle_message-ceiling, handle_message-RetryBounded,
}
use reimbursement_analyzer.Publisher.Processing.Escalations.{Escalated, escalate_item-Escalated}
use reimbursement_analyzer.Publisher.Processing.Outcomes.{process_item-Outbox}
use reimbursement_analyzer.UseCases.ReviewReimbursement.{
  approve_reimbursement, reject_reimbursement,
}
use reimbursement_analyzer.UseCases.ReviewReimbursement.Atomic.{
  IsReviewed, approve-IsReviewed, reject-IsReviewed,
}
use reimbursement_analyzer.Agent.Decisions.{Concluded}
use reimbursement_analyzer.Publisher.Consumer.{run}
use reimbursement_analyzer.Publisher.Consumer.Commits.{IsProgress, run-IsProgress}
use reimbursement_analyzer.Agent.Validation
use reimbursement_analyzer.Agent.Validation.{MessageOutcome}
use reimbursement_analyzer.Agent.Consumer as AgentConsumer
use reimbursement_analyzer.Agent.Consumer.Commits.{agent_run-IsProgress}
use reimbursement_analyzer.Publisher.Processing.Identifiers.{too_long_item}
use reimbursement_analyzer.Agent.NeverRaises.{handle_message-returns}
use reimbursement_analyzer.Agent.State.{Reimbursement, ExtractedFields, auto_approved, State, Llm}

abbrev pub item : Fields
item = dict (
    ("request_id", str "r-1")
    ∷ ("submitted_by", str "ana@example.com")
    ∷ ("submitted_at", str "2026-01-01T00:00:00Z")
    ∷ [])

abbrev pub envelope_at : ℕ → RequestEnvelope
envelope_at n = record {
  retry = n;
  published_at = 5;
  correlation_id = some "c-1";
  errors = [];
  payload = item ∷ [];
}

abbrev pub announcement : ReimbursementEnvelope
announcement = record {
  uuid = 0;
  retry = pos 0;
  published_at = 100;
  correlation_id = none;
  errors = [];
}

-- A `Request` message that is written as one character for each retry.
abbrev pub unary : ℕ → String
unary zero = ""
unary (suc n) = String.◌∷◌ "x" (unary n)

abbrev pub env : Env
env = record {
  lower = λ s. s;
  jsonb = λ j. some j;
  email = λ s. some s;
  aware_datetime = λ s. some 0;
  encode_request = λ e. unary e.retry;
  decode_request = λ s. some (envelope_at (Prelude.Text.length s));
  encode_reimbursement = λ e. "reimbursement";
  decode_reimbursement = λ s. some announcement;
  decode_error = λ s. other "ValidationError" s;
  decode_replace = λ s. s;
  isoformat = λ t. "2026";
  message = λ e. "failed";
  repr = λ fs. "{}";
  date_isoformat = λ d. "2026-01-01";
  show = λ d. "150.0";
  app_clock = λ t. t;
  loads_bytes = λ s. not_json;
  dumps = λ s. "null";
  parse_json = λ s. if str_eq s "bad" then none else some (arr (cons (obj item) nil));
  first_msg = λ s. "Invalid JSON";
  parse_date = λ j. some 1;
  parse_decimal = λ j. some (above 150 0);
  parse_uuid = λ j. some 0;
}

abbrev pub config : Config
config = record {
  dsn = some "postgresql";
  pool_max_size = pos 10;
  max_message_chars = 500;
  item_concurrency = pos 5;
}

abbrev pub extracted : ExtractedFields
extracted = record { value = some (above 150 0); currency = some "BRL"; receipts_date = some 1 }

abbrev pub llm : Llm
llm = record {
  extract = λ prompt t. extracted;
  judge = λ prompt t. record { status = auto_approved; reason = "plain" };
  extract_model = "small";
  analysis_model = "large";
  extract_template = "{request_data}";
  analysis_template = "{found_data}";
  found_data = λ x. "{}";
}

abbrev pub row_of : Status.Status → Row
row_of s = record {
  uuid = 0;
  request_id = "r-1";
  submitted_by = some "ana@example.com";
  submitted_at = some 0;
  original_payload = obj item;
  status = s;
  receipts_value = none;
  receipts_date = none;
  currency = none;
  decision_reason = none;
  human_review_notes = none;
  created_at = 0;
  updated_at = 0;
}

abbrev pub empty_db : Db
empty_db = record { rows = []; reviews = []; next_uuid = 0 }

abbrev pub world_of : Db → World
world_of db = record {
  db = db;
  began = none;
  clock = 100;
  events = [];
  scan = [];
  requests = [];
  reimbursements = [];
  failures = [];
  fallbacks = [];
  logs = [];
  samples = [];
  commits = [];
  correlation_id = none;
}

abbrev pub empty_world : World
empty_world = world_of empty_db

-- One row, which waits for a reviewer.
abbrev pub review_world : World
review_world =
    world_of (record { rows = row_of Status.human_review ∷ []; reviews = []; next_uuid = 1 })

-- The same services, where the call after two others fails.
abbrev pub failing_world : World
failing_world = record empty_world {
  events =
      record { elapsed = 1; fault = fine; scan = [] }
      ∷ record { elapsed = 1; fault = fine; scan = [] }
      ∷ record { elapsed = 1; fault = before (other "PostgresError" "connection lost"); scan = [] }
      ∷ [];
}

-- The reimbursement of the item, and the state that its decision ends in.
abbrev pub submitted : Reimbursement
submitted = record { uuid = 0; original_payload = item }

abbrev pub ending : State
ending = record {
  reimbursement = submitted;
  extracted = extracted;
  missing_fields = [];
  requires_llm_judgment = false;
  status = some Status.approve;
  decision_reason = some "auto-approve rule: resolved value 150.0 is within the 200 ceiling";
  persisted = some true;
  guardrail_verdict = none;
}

abbrev pub accepted_row : Row
accepted_row = record (row_of Status.human_review) {
  status = Status.human_approved;
  decision_reason = some "receipt seen";
  receipts_value = some (above 15000 2);
  receipts_date = some 1;
  currency = some "BRL";
  updated_at = 100;
}

abbrev pub refused_row : Row
refused_row = record (row_of Status.human_review) {
  status = Status.human_rejected;
  decision_reason = some "no receipt";
  updated_at = 100;
}

-- An item whose request_id has 65 characters.
abbrev pub long_id : String
long_id = "aaaaaaaaaaaaaaaaaaaaaaaaaaaaaaaaaaaaaaaaaaaaaaaaaaaaaaaaaaaaaaaaa"

abbrev pub long_item : Fields
long_item = dict (
    ("request_id", str long_id)
    ∷ ("submitted_by", str "ana@example.com")
    ∷ ("submitted_at", str "2026-01-01T00:00:00Z")
    ∷ [])
