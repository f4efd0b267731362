-- ===== src/Agent/Decisions.antt =====
-- Which decision the graph of agent.py comes to, described without its nodes.
mod Steps
pub mod Rules
use reimbursement_analyzer.Prelude.{
  ℕ, ◌+◌, ◌-◌, ◌≤◌, ◌<◌, ltb, arith, Bool-cases, ◌++◌, ◌≡◌, Bool, false, Option, some, ◌⊎◌,
}
use reimbursement_analyzer.Decimal.{Decimal, at_most, exceeds}
use reimbursement_analyzer.Status.{DecisionStatus, reject, approve}
use reimbursement_analyzer.Env.{Env}
use reimbursement_analyzer.World.{
  World, Action, raise, gets, try, count, interact, next_event, settle, Fault, fine, before, after,
  ◌>>◌,
}
use reimbursement_analyzer.World.Yields.{Yields, Yields-any}
use reimbursement_analyzer.Agent.State.{
  Reimbursement, ExtractedFields, GuardrailVerdict, decision, State, initial, Llm,
}
use reimbursement_analyzer.Agent.Nodes.{
  PolicyRule, stale_receipt_reject, low_value_auto_approve, high_value_human_review, missing_if,
  extract_prompt, analysis_prompt, rule_for, is_persisted, is_approval, invoke, rule_applied,
  apply_rule, apply_to, apply_policies, analysis, persist, apply_agent_decision,
}
use reimbursement_analyzer.Agent.Decisions.Steps.{Persisted}
use reimbursement_analyzer.Agent.Decisions.Rules.{IsExplained}

module _ (env : Env) (llm : Llm) (today : ℕ) where
  -- What the state says once the graph has ended.
  abbrev pub Explained : Reimbursement → ExtractedFields → State → Type 0
  Explained r x s =
      (s.reimbursement ≡ r)
      × (s.extracted ≡ x)
      × (d : DecisionStatus) × (s.status ≡ some d)
      × (b : Bool) × (s.persisted ≡ some b)
      × IsExplained today llm (analysis_prompt env llm s) s.extracted d

  abbrev Extracted : State → State → Type 0
  Extracted s s' =
      (time : ℕ) × (s' ≡ record s { extracted = llm.extract (extract_prompt env llm s) time })

  -- What the graph makes of a reimbursement: the fields that the first model extracted from it, and
  -- a decision that they explain.
  abbrev pub Concluded : Reimbursement → State → Type 0
  Concluded r s = (time : ℕ) × Explained r (llm.extract (extract_prompt env llm (initial r)) time) s
