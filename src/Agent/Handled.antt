-- ===== src/Agent/Handled.antt =====
-- What validation.py keeps, from the statements and the messages that it sends.
use reimbursement_analyzer.Prelude.{ℕ, String, Bool, true, false, Option, none, some, List}
use reimbursement_analyzer.Json.{Json, obj}
use reimbursement_analyzer.Errors.{Exc}
use reimbursement_analyzer.Status.{DecisionStatus}
use reimbursement_analyzer.Config.{Config}
use reimbursement_analyzer.Models.{AttemptError, ReimbursementEnvelope}
use reimbursement_analyzer.Env.{Env}
use reimbursement_analyzer.World.{World}
use reimbursement_analyzer.World.Keeps.{Keeps, IsFramed, Keeps-with_correlation_id, keeps_rules}
use reimbursement_analyzer.FailureLog.{Keeps-write}
use reimbursement_analyzer.Producer.{Topic, publish}
use reimbursement_analyzer.Repository.{Receipts, update_decision, get_by_uuid}
use reimbursement_analyzer.Repository.Tables.{Row}
use reimbursement_analyzer.UseCases.SendHumanReview.{escalate_existing}
use reimbursement_analyzer.Agent.State.{Llm, State}
use reimbursement_analyzer.Agent.Invariants.{Keeps-apply_decision, Keeps-decide}
use reimbursement_analyzer.Agent.Validation.{
  from_payload, from_record, escalation_result, escalate_row, decision_failed, observe_persisted,
  decided, decide_row, requeue, resolve_row, resolve, handle_envelope, handle_parsed,
  handle_message,
}

module _ (env : Env) (llm : Llm) (config : Config) {P : World → Type 0} (framed : IsFramed P)
    (updates : (uuid : ℕ) (status : DecisionStatus) (reason : String) (x : Receipts)
      → Keeps P (update_decision uuid status reason x))
    (publishes : (topic : Topic) (payload : String) → Keeps P (publish env topic payload)) where
  module _ (envelope : ReimbursementEnvelope) where
    Keeps-from_payload : (uuid : ℕ) (j : Json) → Keeps P (from_payload uuid j)
    unfolding from_payload
    Keeps-from_payload uuid (obj fs) = search keeps_rules
    Keeps-from_payload uuid _ = search keeps_rules

    Keeps-from_record : (r : Row) → Keeps P (from_record r)
    unfolding from_record
    Keeps-from_record r = search Keeps-from_payload

    Keeps-escalation_result : (o : Option ℕ) → Keeps P (escalation_result env llm config envelope o)
    unfolding escalation_result
    Keeps-escalation_result none = search (keeps_rules, Keeps-write)
    Keeps-escalation_result (some uuid) = search keeps_rules

    Keeps-escalate_row :
        (errors : List AttemptError) (header : String)
        → Keeps P (escalate_row env llm config envelope errors header)
    unfolding escalate_row escalate_existing
    Keeps-escalate_row errors header =
        search (keeps_rules, Keeps-write, Keeps-apply_decision, updates, Keeps-escalation_result)

    Keeps-decision_failed : (e : Exc) → Keeps P (decision_failed env llm config envelope e)
    unfolding decision_failed
    Keeps-decision_failed e = search (keeps_rules, Keeps-write, Keeps-escalate_row)

    Keeps-observe_persisted :
        (o : Option Bool) → Keeps P (observe_persisted env llm config envelope o)
    unfolding observe_persisted
    Keeps-observe_persisted (some true) = search keeps_rules
    Keeps-observe_persisted (some false) = search keeps_rules
    Keeps-observe_persisted none = search keeps_rules

    Keeps-decided : (s : State) → Keeps P (decided env llm config envelope s)
    unfolding decided
    Keeps-decided s = search (keeps_rules, Keeps-observe_persisted)

    Keeps-decide_row : (r : Row) → Keeps P (decide_row env llm config envelope r)
    unfolding decide_row
    Keeps-decide_row r = search (
      keeps_rules, Keeps-from_record, Keeps-decide, updates, Keeps-decision_failed, Keeps-decided,
    )

    Keeps-requeue : (e : Exc) → Keeps P (requeue env llm config envelope e)
    unfolding requeue
    Keeps-requeue e = search (keeps_rules, Keeps-write, publishes)

    Keeps-resolve_row : (o : Option Row) → Keeps P (resolve_row env llm config envelope o)
    unfolding resolve_row
    Keeps-resolve_row none = search keeps_rules
    Keeps-resolve_row (some r) = search (keeps_rules, Keeps-decide_row)

    Keeps-find : Keeps P (get_by_uuid envelope.uuid)
    unfolding get_by_uuid
    Keeps-find = search keeps_rules

    Keeps-resolve : Keeps P (resolve env llm config envelope)
    unfolding resolve
    Keeps-resolve = search (keeps_rules, Keeps-find, Keeps-requeue, Keeps-resolve_row)

    Keeps-handle_envelope : Keeps P (handle_envelope env llm config envelope)
    unfolding handle_envelope
    Keeps-handle_envelope = search (keeps_rules, Keeps-resolve, Keeps-escalate_row)

  Keeps-handle_parsed :
      (raw : String) (o : Option ReimbursementEnvelope)
      → Keeps P (handle_parsed env llm config raw o)
  unfolding handle_parsed
  Keeps-handle_parsed raw none = search (keeps_rules, Keeps-write)
  Keeps-handle_parsed raw (some envelope) =
      Keeps-with_correlation_id framed envelope.correlation_id _ (Keeps-handle_envelope envelope)

  pub Keeps-handle_message : (raw : Option String) → Keeps P (handle_message env llm config raw)
  unfolding handle_message
  Keeps-handle_message none = search keeps_rules
  Keeps-handle_message (some raw) = Keeps-handle_parsed raw (env.decode_reimbursement raw)
