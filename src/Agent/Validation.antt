-- ===== src/Agent/Validation.antt =====
-- validation.py: one consumed `Reimbursement` message, one outcome.
use reimbursement_analyzer.Prelude
use reimbursement_analyzer.Prelude.{
  ℤ, pos, negsuc, suc, next_int, is_past, ℕ, ◌+◌, String, Bool, true, Option, none, some, List, [],
  ◌∷◌, ltb, if◌then◌else◌,
}
use reimbursement_analyzer.Json.{
  number, Json, null, bool, int, str, obj, Fields, dict, merge, optional,
}
use reimbursement_analyzer.Status
use reimbursement_analyzer.Status.{DecisionStatus}
use reimbursement_analyzer.Errors.{Exc, other, validation_error}
use reimbursement_analyzer.Config.{Config, max_retry, reimbursement_topic}
use reimbursement_analyzer.Models.{
  resolve as resolve_stage, decide as decide_stage, AttemptError, ReimbursementEnvelope,
}
use reimbursement_analyzer.Env.{Env}
use reimbursement_analyzer.World.{
  Action, pure, raise, gets, acquire, try, log, count, with_correlation_id, ◌>>=◌, ◌>>◌,
}
use reimbursement_analyzer.Repository.{get_by_uuid}
use reimbursement_analyzer.Repository.Tables.{Row}
use reimbursement_analyzer.FailureLog
use reimbursement_analyzer.FailureLog.{render_errors}
use reimbursement_analyzer.Producer.{publish, reimbursement}
use reimbursement_analyzer.UseCases.PublishPending.{uuid_text}
use reimbursement_analyzer.UseCases.SendHumanReview.{escalate_existing, default_header}
use reimbursement_analyzer.Publisher.Processing.{with_attempt}
use reimbursement_analyzer.Agent.State.{Reimbursement, State, Llm}
use reimbursement_analyzer.Agent.Graph.{decide}

pub data MessageOutcome : Type 0 where
  resolved stale ghost requeued escalated logged invalid : MessageOutcome

-- A retry count, which a message may give as a negative one.
abbrev retry_json : ℤ → Json
retry_json (pos n) = int n
retry_json (negsuc n) = number (Prelude.Text.append "-" (Prelude.Text.decimal (suc n)))

-- `_failure_record`
abbrev pub failure_record : Env → String → ReimbursementEnvelope → Fields → Fields
failure_record env event envelope extra =
    merge
      (dict (
        ("event", str event)
        ∷ ("uuid", uuid_text envelope.uuid)
        ∷ ("retry", retry_json envelope.retry)
        ∷ ("errors", render_errors env envelope.errors)
        ∷ []))
      extra

abbrev event_log : String → ReimbursementEnvelope → Action (Unit {0})
event_log event envelope = log (
    obj (
      dict (
        ("event", str event)
        ∷ ("uuid", uuid_text envelope.uuid)
        ∷ ("retry", retry_json envelope.retry)
        ∷ [])))

abbrev uuid_log : String → ReimbursementEnvelope → Action (Unit {0})
uuid_log event envelope =
    log (obj (dict (("event", str event) ∷ ("uuid", uuid_text envelope.uuid) ∷ [])))

-- `Reimbursement.from_record`: the payload has to be an object.
unfoldable pub from_payload : ℕ → Json → Action Reimbursement
from_payload uuid (obj fs) = pure (record { uuid = uuid; original_payload = fs })
from_payload uuid j = raise (validation_error (("original_payload" ∷ []) ∷ []))

unfoldable pub from_record : Row → Action Reimbursement
unfolding from_payload
from_record r = from_payload r.uuid r.original_payload

abbrev pub retried : Env → ReimbursementEnvelope → Exc → ℕ → ReimbursementEnvelope
retried env envelope exc now = record envelope {
  retry = next_int envelope.retry;
  published_at = now;
  errors = with_attempt env envelope.errors resolve_stage exc now;
}

abbrev optional_status : Option DecisionStatus → Json
optional_status none = null
optional_status (some d) = str (Status.value (Status.to_status d))

abbrev optional_bool : Option Bool → Json
optional_bool none = null
optional_bool (some b) = bool b

module _ (env : Env) (llm : Llm) (config : Config) (envelope : ReimbursementEnvelope) where
  not_escalated : Fields → Action MessageOutcome
  not_escalated extra = do
    FailureLog.write config.max_message_chars
        (failure_record env "reimbursement.escalation_failed" envelope extra)
    pure logged

  unfoldable pub escalation_result : Option ℕ → Action MessageOutcome
  unfolding not_escalated
  escalation_result none = not_escalated (dict (("reason", str "uuid has no matching row") ∷ []))
  escalation_result (some uuid) = do event_log "reimbursement.escalated" envelope; pure escalated

  -- `_escalate_row`
  unfoldable pub escalate_row : List AttemptError → String → Action MessageOutcome
  unfolding not_escalated escalation_result
  escalate_row errors header =
      try (acquire (escalate_existing env envelope.uuid errors config.max_message_chars header))
        (λ exc. not_escalated (dict (("error", str (env.message exc)) ∷ []))) escalation_result

  -- `_escalate_decision_failure`, after the failure is logged
  unfoldable pub decision_failed : Exc → Action MessageOutcome
  unfolding escalate_row
  decision_failed exc = do
    FailureLog.write config.max_message_chars (
        failure_record env "reimbursement.decision_failed" envelope
          (dict (("error", str (env.message exc)) ∷ [])))
    now ← gets (λ w. env.app_clock w.clock)
    count "reimbursement_decision_failure_escalations" []
    escalate_row (with_attempt env envelope.errors decide_stage exc now) "Decision-stage failure"

  unfoldable pub observe_persisted : Option Bool → Action (Unit {0})
  observe_persisted (some true) = count "reimbursement_time_to_decision_seconds" []
  observe_persisted _ = pure tt

  unfoldable pub decided : State → Action MessageOutcome
  unfolding observe_persisted
  decided s = do
    log (
        obj (
          dict (
            ("event", str "reimbursement.decided")
            ∷ ("uuid", uuid_text envelope.uuid)
            ∷ ("status", optional_status s.status)
            ∷ ("decision_reason", optional s.decision_reason)
            ∷ ("persisted", optional_bool s.persisted)
            ∷ [])))
    observe_persisted s.persisted
    pure resolved

  -- `_decide`
  unfoldable pub decide_row : Row → Action MessageOutcome
  unfolding decision_failed decided
  decide_row row = try (from_record row >>= decide env llm) decision_failed decided

  requeue_failed : Exc → Exc → Action MessageOutcome
  requeue_failed exc requeue_exc = do
    FailureLog.write config.max_message_chars (
        failure_record env "reimbursement.resolve_failed" envelope (
          dict (
            ("error", str (env.message exc))
            ∷ ("requeue_error", str (env.message requeue_exc))
            ∷ [])))
    pure logged

  -- `_requeue`
  unfoldable pub requeue : Exc → Action MessageOutcome
  unfolding requeue_failed
  requeue exc = do
    now ← gets (λ w. env.app_clock w.clock)
    try (publish env reimbursement (env.encode_reimbursement (retried env envelope exc now)))
        (requeue_failed exc)
        (λ _. count "reimbursement_messages_requeued" (reimbursement_topic ∷ []) >> pure requeued)

  -- What follows the query: a ghost is dropped, a row that changed since is left alone.
  unfoldable pub resolve_row : Option Row → Action MessageOutcome
  unfolding decide_row
  resolve_row none = do event_log "reimbursement.ghost_dropped" envelope; pure ghost
  resolve_row (some row) =
      if ltb envelope.published_at row.updated_at
      then (uuid_log "reimbursement.stale_ignored" envelope >> pure stale)
      else (uuid_log "reimbursement.resolved" envelope >> decide_row row)

  -- `_resolve`
  unfoldable pub resolve : Action MessageOutcome
  unfolding resolve_row requeue
  resolve = try (acquire (get_by_uuid envelope.uuid) >>= resolve_row) requeue pure

  -- Past the ceiling the row is escalated; up to it the row is resolved.
  unfoldable pub handle_envelope : Action MessageOutcome
  handle_envelope =
      if is_past max_retry envelope.retry
      then escalate_row envelope.errors default_header
      else resolve

unfoldable pub handle_parsed :
    Env → Llm → Config → String → Option ReimbursementEnvelope → Action MessageOutcome
handle_parsed env llm config raw none = do
  FailureLog.write config.max_message_chars (
      dict (
        ("event", str "reimbursement.malformed_message")
        ∷ ("outcome", str "invalid")
        ∷ ("message", str (env.decode_replace raw))
        ∷ ("error", str (env.message (env.decode_error raw)))
        ∷ []))
  pure invalid
handle_parsed env llm config raw (some envelope) =
    with_correlation_id envelope.correlation_id (handle_envelope env llm config envelope)

-- A null value has no `decode`, which the branch for a malformed message calls.
unfoldable pub handle_message : Env → Llm → Config → Option String → Action MessageOutcome
unfolding handle_parsed
handle_message env llm config none =
    raise (other "AttributeError" "'NoneType' object has no attribute 'decode'")
handle_message env llm config (some raw) =
    handle_parsed env llm config raw (env.decode_reimbursement raw)
