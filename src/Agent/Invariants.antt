-- ===== src/Agent/Invariants.antt =====
-- What the agent's handler keeps (validation.py, agent.py and the nodes): an invariant that the
-- update of a row and the publication of a message keep is kept by the whole of `handle_message`.
use reimbursement_analyzer.Prelude.{ℕ, String, refl, Bool, true, false, Option, none, some, List}
use reimbursement_analyzer.Decimal.{Decimal}
use reimbursement_analyzer.Status.{DecisionStatus}
use reimbursement_analyzer.Env.{Env}
use reimbursement_analyzer.World.{World, Action}
use reimbursement_analyzer.World.Keeps.{Keeps, IsFramed, keeps_rules}
use reimbursement_analyzer.Repository.{Receipts, update_decision}
use reimbursement_analyzer.UseCases.ApplyDecision.{apply_decision, reported}
use reimbursement_analyzer.Agent.State.{Reimbursement, State, Llm}
use reimbursement_analyzer.Agent.Nodes.{
  PolicyRule, extract_fields, validate, rule_applied, apply_rule, apply_to, apply_policies,
  analysis, persist, apply_agent_decision,
}
use reimbursement_analyzer.Agent.Graph.{
  observed, timed, finalize, after_policies, after_validate, after_extract_fields, run_graph,
  decide,
}

module _ (env : Env) (llm : Llm) {P : World → Type 0} (framed : IsFramed P)
    (updates : (uuid : ℕ) (status : DecisionStatus) (reason : String) (x : Receipts)
      → Keeps P (update_decision uuid status reason x)) where
  Keeps-reported :
      (uuid : ℕ) (status : DecisionStatus) (b : Bool) → Keeps P (reported uuid status b)
  unfolding reported
  Keeps-reported uuid status true = search keeps_rules
  Keeps-reported uuid status false = search keeps_rules

  pub Keeps-apply_decision :
      (uuid : ℕ) (status : DecisionStatus) (reason : String) (x : Receipts)
      → Keeps P (apply_decision uuid status reason x)
  unfolding apply_decision
  Keeps-apply_decision uuid status reason x = search (keeps_rules, updates, Keeps-reported)

  Keeps-extract_fields : (s : State) → Keeps P (extract_fields env llm s)
  unfolding extract_fields
  Keeps-extract_fields s = search keeps_rules

  Keeps-validate : (s : State) → Keeps P (validate s)
  unfolding validate
  Keeps-validate s = search keeps_rules

  Keeps-rule_applied :
      (s : State) (rule : PolicyRule) (reason : String) → Keeps P (rule_applied s rule reason)
  unfolding rule_applied
  Keeps-rule_applied s rule reason = search (keeps_rules, Keeps-apply_decision)

  Keeps-apply_rule :
      (s : State) (today date : ℕ) (value : Decimal) (rule : Option PolicyRule)
      → Keeps P (apply_rule env s today date value rule)
  unfolding apply_rule
  Keeps-apply_rule s today date value none = search keeps_rules
  Keeps-apply_rule s today date value (some rule) = search (keeps_rules, Keeps-rule_applied)

  Keeps-apply_to :
      (s : State) (today : ℕ) (date : Option ℕ) (value : Option Decimal)
      → Keeps P (apply_to env s today date value)
  unfolding apply_to
  Keeps-apply_to s today (some date) (some value) = search Keeps-apply_rule
  Keeps-apply_to s today (some date) none = search keeps_rules
  Keeps-apply_to s today none value = search keeps_rules

  Keeps-apply_policies : (s : State) → Keeps P (apply_policies env s)
  unfolding apply_policies
  Keeps-apply_policies s = search (keeps_rules, Keeps-apply_to)

  Keeps-analysis : (s : State) → Keeps P (analysis env llm s)
  unfolding analysis
  Keeps-analysis s = search keeps_rules

  Keeps-persist :
      (s : State) (status : Option DecisionStatus) (reason : Option String)
      → Keeps P (persist s status reason)
  unfolding persist
  Keeps-persist s (some status) (some reason) = search (keeps_rules, Keeps-apply_decision)
  Keeps-persist s (some status) none = search keeps_rules
  Keeps-persist s none reason = search keeps_rules

  Keeps-apply_agent_decision : (s : State) → Keeps P (apply_agent_decision s)
  unfolding apply_agent_decision
  Keeps-apply_agent_decision s = search Keeps-persist

  Keeps-observed {ℓ} :
      {A : Type ℓ} (metric : String) (labels : List String) (m : Action A)
      → Keeps P m
      → Keeps P (observed metric labels m)
  unfolding observed
  Keeps-observed metric labels m hm = record {
    at = λ w h. framed.same (m w).1 _ refl refl refl refl (hm.at w h);
  }

  Keeps-timed : (name model : String) (m : Action State) → Keeps P m → Keeps P (timed name model m)
  unfolding timed
  Keeps-timed name model m hm = Keeps-observed _ _ m hm

  Keeps-finalize : (s : State) → Keeps P (finalize s)
  unfolding finalize
  Keeps-finalize s = search (Keeps-timed, Keeps-apply_agent_decision)

  Keeps-after_policies : (s : State) → Keeps P (after_policies env llm s)
  unfolding after_policies
  Keeps-after_policies s = search (keeps_rules, Keeps-timed, Keeps-analysis, Keeps-finalize)

  Keeps-after_validate : (s : State) → Keeps P (after_validate env llm s)
  unfolding after_validate
  Keeps-after_validate s =
      search (keeps_rules, Keeps-timed, Keeps-apply_policies, Keeps-after_policies, Keeps-finalize)

  Keeps-after_extract_fields : (s : State) → Keeps P (after_extract_fields env llm s)
  unfolding after_extract_fields
  Keeps-after_extract_fields s =
      search (keeps_rules, Keeps-timed, Keeps-validate, Keeps-after_validate)

  Keeps-run_graph : (s : State) → Keeps P (run_graph env llm s)
  unfolding run_graph
  Keeps-run_graph s =
      search (keeps_rules, Keeps-timed, Keeps-extract_fields, Keeps-after_extract_fields)

  pub Keeps-decide : (r : Reimbursement) → Keeps P (decide env llm r)
  unfolding decide
  Keeps-decide r = search (Keeps-observed, Keeps-run_graph)
