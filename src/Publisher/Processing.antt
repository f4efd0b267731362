-- ===== src/Publisher/Processing.antt =====
-- publisher/processing.py: one consumed `Request` message, one outcome for each of its items.
-- The items of a message run one after the other here; the source interleaves them at its awaits.
pub mod NeverRaises
pub mod Invariants
pub mod Ceiling
pub mod Outcomes
pub mod Identifiers
pub mod Attempts
pub mod Escalations
mod Records
unfoldable pub use Records.*
use reimbursement_analyzer.Prelude.{
  ℕ, zero, suc, ◌+◌, String, Bool, true, false, Option, none, some, List, [], ◌∷◌, ◌++◌, ltb,
  length, if◌then◌else◌,
}
use reimbursement_analyzer.Json.{
  Json, null, int, str, arr, obj, Items, nil, Fields, get, dict, merge,
}
use reimbursement_analyzer.Errors.{Exc, publish_failed, is_duplicate, type_name, constraint_name}
use reimbursement_analyzer.Config.{Config, max_retry, request_topic}
use reimbursement_analyzer.Models.{
  AttemptError, Stage, db_insert, publish as publish_stage, stage_name, RequestEnvelope,
}
use reimbursement_analyzer.Models.Request.{Validated, valid, invalid, model_validate}
use reimbursement_analyzer.Env.{Env}
use reimbursement_analyzer.World.{
  World, Result, ok, raised, Action, pure, raise, gets, modify, transaction, acquire, try, log,
  count, with_correlation_id, ◌>>=◌, ◌>>◌,
}
use reimbursement_analyzer.FailureLog
use reimbursement_analyzer.FailureLog.{render_errors}
use reimbursement_analyzer.Producer.{publish, request}
use reimbursement_analyzer.UseCases.PublishPending.{publish_pending, or_null, uuid_text}
use reimbursement_analyzer.UseCases.SendHumanReview.{send_human_review}

-- `AttemptError.from_exception`, for the attempt that follows `errors`, and the longer history.
abbrev pub with_attempt : Env → List AttemptError → Stage → Exc → ℕ → List AttemptError
with_attempt env errors stage exc now =
    errors
    ++ record {
      attempt = length errors + 1;
      occurred_at = now;
      stage = stage;
      error_type = type_name exc;
      message = env.message exc;
    }
      ∷ []

-- The envelope that `_requeue` publishes: this item alone, one retry further.
abbrev pub retried : Env → RequestEnvelope → Fields → Stage → Exc → ℕ → RequestEnvelope
retried env envelope item stage exc now = record {
  retry = envelope.retry + 1;
  published_at = now;
  correlation_id = envelope.correlation_id;
  errors = with_attempt env envelope.errors stage exc now;
  payload = item ∷ [];
}

module _ (env : Env) (config : Config) (envelope : RequestEnvelope) where
  rejected_item : ℕ → Fields → Exc → Action Bool
  rejected_item index item e = do
    FailureLog.write config.max_message_chars (
        failure_record env "reimbursement.invalid_item" index item envelope.errors (
          dict
            (("outcome", str (outcome_value invalid_item)) ∷ ("error", str (env.message e)) ∷ [])))
    pure false

  accepted : ℕ → Fields → Validated → Action Bool
  unfolding rejected_item
  accepted index item (valid r) = pure true
  accepted index item (invalid e) = rejected_item index item e

  -- `_accepts`
  unfoldable pub accepts : ℕ → Fields → Action Bool
  unfolding accepted
  accepts index item = accepted index item (model_validate env item)

  requeue_failed : ℕ → Fields → Stage → ℕ → Exc → Exc → Action ItemOutcome
  requeue_failed index item stage now exc requeue_exc = do
    FailureLog.write config.max_message_chars (
        failure_record env "reimbursement.item_failed" index item
          (with_attempt env envelope.errors stage exc now)
          (dict (
            ("stage", str (stage_name stage))
            ∷ ("outcome", str (outcome_value logged))
            ∷ ("requeue_error", str (env.message requeue_exc))
            ∷ [])))
    pure logged

  -- `_requeue`
  unfoldable pub requeue : ℕ → Fields → Stage → Exc → Action ItemOutcome
  unfolding requeue_failed
  requeue index item stage exc = do
    now ← gets (λ w. env.app_clock w.clock)
    try (publish env request (env.encode_request (retried env envelope item stage exc now)))
        (requeue_failed index item stage now exc)
        (λ _. count "publisher_messages_requeued" (request_topic ∷ []) >> pure requeued)

  -- `_log_duplicate`
  log_duplicate : Fields → Exc → Action ItemOutcome
  log_duplicate item exc = do
    count "publisher_duplicate_dropped" []
    log (
        obj (
          dict (
            ("event", str "reimbursement.duplicate_dropped")
            ∷ ("request_id", request_id item)
            ∷ ("constraint", elim (constraint_name exc) [ none ↦ null | some c ↦ str c ])
            ∷ ("retry", int envelope.retry)
            ∷ [])))
    pure duplicate

  insert_failed : ℕ → Fields → Exc → Action ItemOutcome
  unfolding requeue log_duplicate
  insert_failed index item (publish_failed m) = requeue index item publish_stage (publish_failed m)
  insert_failed index item exc =
      if is_duplicate exc then log_duplicate item exc else requeue index item db_insert exc

  item_published : Fields → ℕ → Action ItemOutcome
  item_published item uuid = do
    log (
        obj (
          dict (
            ("event", str "reimbursement.item_published")
            ∷ ("request_id", request_id item)
            ∷ ("uuid", uuid_text uuid)
            ∷ [])))
    pure published

  insert_and_publish : Fields → Action ℕ
  insert_and_publish item = acquire (
      publish_pending env item envelope.errors config.max_message_chars envelope.retry
        envelope.correlation_id)

  process_accepted : ℕ → Fields → Bool → Action ItemOutcome
  unfolding insert_failed item_published insert_and_publish
  process_accepted index item false = pure invalid_item
  process_accepted index item true =
      try (insert_and_publish item) (insert_failed index item) (item_published item)

  unfoldable pub process_item : ℕ → Fields → Action ItemOutcome
  unfolding process_accepted
  process_item index item = do accepted ← accepts index item; process_accepted index item accepted

  not_escalated : ℕ → Fields → Exc → Action ItemOutcome
  not_escalated index item exc = do
    FailureLog.write config.max_message_chars (
        failure_record env "reimbursement.escalation_failed" index item envelope.errors
          (dict (("outcome", str (outcome_value logged)) ∷ ("error", str (env.message exc)) ∷ [])))
    pure logged

  escalation_failed : ℕ → Fields → Exc → Action ItemOutcome
  unfolding log_duplicate not_escalated
  escalation_failed index item exc =
      if is_duplicate exc then log_duplicate item exc else not_escalated index item exc

  escalate_accepted : ℕ → Fields → Bool → Action ItemOutcome
  unfolding escalation_failed
  escalate_accepted index item false = pure invalid_item
  escalate_accepted index item true =
      try
        (acquire
          (transaction (send_human_review env item envelope.errors config.max_message_chars)))
        (escalation_failed index item) (λ _. pure escalated)

  unfoldable pub escalate_item : ℕ → Fields → Action ItemOutcome
  unfolding escalate_accepted
  escalate_item index item = do accepted ← accepts index item; escalate_accepted index item accepted

  -- The handler is chosen once, before the fan-out.
  unfoldable pub handle_item : ℕ → Fields → Action ItemOutcome
  handle_item index item =
      if ltb max_retry envelope.retry then escalate_item index item else process_item index item

  -- `_fan_out`
  unfoldable pub fan_out : ℕ → List Fields → Action (List ItemOutcome)
  fan_out index [] = pure []
  fan_out index (item ∷ rest) = do
    outcome ← handle_item index item
    outcomes ← fan_out (suc index) rest
    pure (outcome ∷ outcomes)

abbrev null_record : Fields
null_record =
    dict (("event", str "reimbursement.null_value") ∷ ("outcome", str (outcome_value logged)) ∷ [])

empty_payload : RequestEnvelope → Action (List ItemOutcome)
empty_payload envelope = do
  log (
      obj
        (dict (("event", str "reimbursement.empty_payload") ∷ ("retry", int envelope.retry) ∷ [])))
  pure []

pub handle_payload : Env → Config → RequestEnvelope → List Fields → Action (List ItemOutcome)
unfolding empty_payload
handle_payload env config envelope [] = empty_payload envelope
handle_payload env config envelope items = fan_out env config envelope 0 items

unfoldable pub write_malformed : Config → Result Fields → Action (List ItemOutcome)
write_malformed config (raised e) = raise e
write_malformed config (ok record_) = do
  FailureLog.write config.max_message_chars record_
  pure (logged ∷ [])

handle_parsed : Env → Config → String → Option RequestEnvelope → Action (List ItemOutcome)
unfolding handle_payload write_malformed
handle_parsed env config raw none = write_malformed config (malformed_message_record env raw)
handle_parsed env config raw (some envelope) =
    with_correlation_id envelope.correlation_id
      (handle_payload env config envelope envelope.payload)

-- `none` is a record with a null value.
unfoldable pub handle_message : Env → Config → Option String → Action (List ItemOutcome)
unfolding handle_parsed
handle_message env config none = do
  FailureLog.write config.max_message_chars null_record
  pure (logged ∷ [])
handle_message env config (some raw) = handle_parsed env config raw (env.decode_request raw)
