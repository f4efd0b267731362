-- ===== src/Agent/Nodes.antt =====
-- agent/nodes: each node takes the state and returns the state with the keys that it writes.
use reimbursement_analyzer.Prelude
use reimbursement_analyzer.Prelude.{
  ℕ, ◌-◌, String, Bool, true, false, Option, none, some, List, [], ◌∷◌, ◌++◌, ltb, if◌then◌else◌,
}
use reimbursement_analyzer.Json.{Fields, without}
use reimbursement_analyzer.Decimal.{Decimal, at_most, exceeds, nonneg}
use reimbursement_analyzer.Status.{DecisionStatus, approve, reject, review}
use reimbursement_analyzer.Errors.{other}
use reimbursement_analyzer.Env.{Env}
use reimbursement_analyzer.World.{
  Action, pure, raise, gets, acquire, interact, try, count, ◌>>=◌, ◌>>◌,
}
use reimbursement_analyzer.Repository.{Receipts}
use reimbursement_analyzer.Repository.Tables.{day}
use reimbursement_analyzer.UseCases.ApplyDecision.{apply_decision}
use reimbursement_analyzer.Agent.Prompts.{substitute}
use reimbursement_analyzer.Agent.State.{
  ExtractedFields, GuardrailStatus, auto_approved, human_review, decision, State, Llm,
}

abbrev pub reject_threshold_days : ℕ
reject_threshold_days = 90

abbrev pub auto_approve_ceiling : ℕ
auto_approve_ceiling = 200

abbrev pub human_review_floor : ℕ
human_review_floor = 2000

-- The submitter's address never reaches a prompt as a field.
abbrev pub prompt_payload : State → Fields
prompt_payload s = without "submitted_by" s.reimbursement.original_payload

abbrev pub extract_prompt : Env → Llm → State → String
extract_prompt env llm s =
    substitute (("{request_data}", env.repr (prompt_payload s)) ∷ []) llm.extract_template

abbrev pub analysis_prompt : Env → Llm → State → String
analysis_prompt env llm s =
    substitute
      (("{found_data}", llm.found_data s.extracted)
        ∷ ("{request_data}", env.repr (prompt_payload s))
        ∷ [])
      llm.analysis_template

-- One call of a model, counted by how it ended.
unfoldable pub invoke {ℓ} : {A : Type ℓ} → String → (ℕ → A) → Action A
invoke model answer =
    try (interact (gets (λ w. answer w.clock)))
      (λ e. count "reimbursement_agent_llm_calls" (model ∷ "failure" ∷ []) >> raise e)
      (λ a. count "reimbursement_agent_llm_calls" (model ∷ "success" ∷ []) >> pure a)

unfoldable pub extract_fields : Env → Llm → State → Action State
unfolding invoke
extract_fields env llm s = do
  result ← invoke llm.extract_model (llm.extract (extract_prompt env llm s))
  pure (record s { extracted = result })

abbrev pub missing_if {ℓ} : {A : Type ℓ} → String → Option A → List String
missing_if name none = name ∷ []
missing_if name (some a) = []

abbrev pub missing_of : ExtractedFields → List String
missing_of x = missing_if "value" x.value ++ missing_if "receipts_date" x.receipts_date

unfoldable pub validated : State → List String → State
validated s [] = record s { missing_fields = [] }
validated s (m ∷ ms) = record s {
  missing_fields = m ∷ ms;
  status = some review;
  decision_reason = some (
      Prelude.Text.append "required field(s) unresolved by extraction: "
        (Prelude.Text.join ", " (m ∷ ms)));
}

unfoldable pub validate : State → Action State
unfolding validated
validate s = pure (validated s (missing_of s.extracted))

-- `receipts_value`: a value below zero is not persisted.
abbrev pub receipts_value : Option Decimal → Option Decimal
receipts_value none = none
receipts_value (some v) = if nonneg v then some v else none

abbrev pub receipts_of : ExtractedFields → Receipts
receipts_of x = record {
  value = receipts_value x.value;
  date = x.receipts_date;
  currency = x.currency;
}

abbrev pub is_persisted : Option ℕ → Bool
is_persisted none = false
is_persisted (some u) = true

pub data PolicyRule : Type 0 where
  stale_receipt_reject low_value_auto_approve high_value_human_review : PolicyRule

abbrev rule_value : PolicyRule → String
rule_value stale_receipt_reject = "stale-receipt-reject"
rule_value low_value_auto_approve = "low-value-auto-approve"
rule_value high_value_human_review = "high-value-human-review"

abbrev pub rule_status : PolicyRule → DecisionStatus
rule_status stale_receipt_reject = reject
rule_status low_value_auto_approve = approve
rule_status high_value_human_review = review

-- The ladder of rules. A receipt dated after today has a negative age, which is 0 here and not
-- over the limit either.
abbrev pub rule_for : ℕ → ℕ → Decimal → Option PolicyRule
rule_for today date value =
    if ltb reject_threshold_days (today - date)
    then some stale_receipt_reject
    else if at_most value auto_approve_ceiling
    then some low_value_auto_approve
    else if exceeds value human_review_floor
    then some high_value_human_review
    else none

rule_reason : Env → PolicyRule → ℕ → ℕ → Decimal → String
rule_reason env stale_receipt_reject today date value = Prelude.Text.concat (
    "reject rule: receipt dated "
    ∷ env.date_isoformat date
    ∷ " is "
    ∷ Prelude.Text.decimal (today - date)
    ∷ " days old as of "
    ∷ env.date_isoformat today
    ∷ ", older than the 90-day limit"
    ∷ [])
rule_reason env low_value_auto_approve today date value =
    Prelude.Text.concat
      ("auto-approve rule: resolved value " ∷ env.show value ∷ " is within the 200 ceiling" ∷ [])
rule_reason env high_value_human_review today date value = Prelude.Text.concat (
    "mandatory human-review rule: resolved value "
    ∷ env.show value
    ∷ " exceeds the 2000 floor"
    ∷ [])

-- Persists the decision of a rule, and writes it into the state.
unfoldable pub rule_applied : State → PolicyRule → String → Action State
rule_applied s rule reason = do
  result ←
      acquire
        (apply_decision s.reimbursement.uuid (rule_status rule) reason (receipts_of s.extracted))
  pure (record s {
    status = some (rule_status rule);
    decision_reason = some reason;
    persisted = some (is_persisted result);
    requires_llm_judgment = false;
  })

unfoldable pub apply_rule : Env → State → ℕ → ℕ → Decimal → Option PolicyRule → Action State
unfolding rule_reason
apply_rule env s today date value none = pure (record s { requires_llm_judgment = true })
apply_rule env s today date value (some rule) = do
  count "reimbursement_policy_rule_triggered" (rule_value rule ∷ [])
  rule_applied s rule (rule_reason env rule today date value)

-- A date or a value that is None raises at the subtraction or at the comparison.
unfoldable pub apply_to : Env → State → ℕ → Option ℕ → Option Decimal → Action State
unfolding apply_rule
apply_to env s today (some date) (some value) =
    apply_rule env s today date value (rule_for today date value)
apply_to env s today date value = raise (other "TypeError" "unsupported operand type(s)")

-- `ApplyPolicies`: its own clock says which day it is.
unfoldable pub apply_policies : Env → State → Action State
unfolding apply_to
apply_policies env s = do
  today ← gets (λ w. day (env.app_clock w.clock))
  apply_to env s today s.extracted.receipts_date s.extracted.value

abbrev pub is_approval : GuardrailStatus → Bool
is_approval auto_approved = true
is_approval human_review = false

unfoldable pub analysis : Env → Llm → State → Action State
unfolding invoke
analysis env llm s = do
  verdict ← invoke llm.analysis_model (llm.judge (analysis_prompt env llm s))
  pure (record s {
    guardrail_verdict = some (is_approval verdict.status);
    status = some (decision verdict.status);
    decision_reason = some verdict.reason;
  })

unfoldable pub persist : State → Option DecisionStatus → Option String → Action State
persist s (some status) (some reason) = do
  result ← acquire (apply_decision s.reimbursement.uuid status reason (receipts_of s.extracted))
  pure (record s { persisted = some (is_persisted result) })
persist s status reason = raise (other "KeyError" "'status'")

-- `ApplyAgentDecision`: persists the decision that is in the state.
unfoldable pub apply_agent_decision : State → Action State
unfolding persist
apply_agent_decision s = persist s s.status s.decision_reason
