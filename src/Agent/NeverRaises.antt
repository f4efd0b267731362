-- ===== src/Agent/NeverRaises.antt =====
-- validation.py, and that its handler returns.
use reimbursement_analyzer.Prelude.{ℕ, String, ◌≡◌, Option, none, some, List}
use reimbursement_analyzer.Errors.{Exc}
use reimbursement_analyzer.Config.{Config}
use reimbursement_analyzer.Models.{AttemptError, ReimbursementEnvelope}
use reimbursement_analyzer.Env.{Env}
use reimbursement_analyzer.World.{World, ok}
use reimbursement_analyzer.World.Returns.{Returns, Returns-with_correlation_id, returns_rules}
use reimbursement_analyzer.Publisher.Processing.NeverRaises.{Returns-write}
use reimbursement_analyzer.Agent.State.{Llm}
use reimbursement_analyzer.Agent.Validation.{
  MessageOutcome, escalation_result, escalate_row, requeue, resolve, handle_envelope, handle_parsed,
  handle_message,
}

module _ (env : Env) (llm : Llm) (config : Config) where
  module _ (envelope : ReimbursementEnvelope) where
    Returns-escalation_result :
        (o : Option ℕ) → Returns (escalation_result env llm config envelope o)
    unfolding escalation_result
    Returns-escalation_result none = search (returns_rules, Returns-write)
    Returns-escalation_result (some uuid) = search returns_rules

    Returns-escalate_row :
        (errors : List AttemptError) (header : String)
        → Returns (escalate_row env llm config envelope errors header)
    unfolding escalate_row
    Returns-escalate_row errors header =
        search (returns_rules, Returns-write, Returns-escalation_result)

    Returns-requeue : (e : Exc) → Returns (requeue env llm config envelope e)
    unfolding requeue
    Returns-requeue e = search (returns_rules, Returns-write)

    Returns-resolve : Returns (resolve env llm config envelope)
    unfolding resolve
    Returns-resolve = search (returns_rules, Returns-requeue)

    Returns-handle_envelope : Returns (handle_envelope env llm config envelope)
    unfolding handle_envelope
    Returns-handle_envelope = search (returns_rules, Returns-resolve, Returns-escalate_row)

  Returns-handle_parsed :
      (raw : String) (o : Option ReimbursementEnvelope)
      → Returns (handle_parsed env llm config raw o)
  unfolding handle_parsed
  Returns-handle_parsed raw none = search (returns_rules, Returns-write)
  Returns-handle_parsed raw (some envelope) =
      Returns-with_correlation_id envelope.correlation_id _ (Returns-handle_envelope envelope)

  -- Whatever text a consumed message holds, whatever the language model answers, and whatever the
  -- database and the broker do, the agent's `handle_message` returns an outcome.
  pub handle_message-returns :
      (raw : String) (w : World)
      → (outcome : MessageOutcome) × ((handle_message env llm config (some raw) w).0 ≡ ok outcome)
  unfolding handle_message
  handle_message-returns raw = (Returns-handle_parsed raw (env.decode_reimbursement raw)).at
