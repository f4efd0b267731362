-- ===== src/Agent/Decisions/Steps.antt =====
-- What each node of the graph yields.
use reimbursement_analyzer.Prelude.{
  ℕ, String, ◌≡◌, refl, Bool, true, false, Option, none, some, List, [], ◌∷◌, ◌⊎◌, inl, inr,
}
use reimbursement_analyzer.Decimal.{Decimal}
use reimbursement_analyzer.Status.{DecisionStatus}
use reimbursement_analyzer.Env.{Env}
use reimbursement_analyzer.World.{
  World, ok, Action, pure, raise, gets, try, count, interact, next_event, settle, Fault, fine,
  before, after, ◌>>◌,
}
use reimbursement_analyzer.Repository.Tables.{day}
use reimbursement_analyzer.World.Yields.{Yields, Yields-pure, Yields-any, Yields-bind}
use reimbursement_analyzer.Agent.State.{GuardrailVerdict, decision, State, Llm}
use reimbursement_analyzer.Agent.Nodes.{
  PolicyRule, analysis_prompt, rule_for, rule_status, is_persisted, is_approval, invoke,
  rule_applied, apply_rule, apply_to, apply_policies, analysis, persist, apply_agent_decision,
}
use reimbursement_analyzer.Agent.Graph.{observed, timed, finalize}

module _ {A : Type 0} where
  pub Yields-observed :
      (metric : String) (labels : List String) (m : Action A) (Q : A → Type 0)
      → Yields m Q
      → Yields (observed metric labels m) Q
  unfolding observed
  Yields-observed metric labels m Q h = record { at = h.at }

module _ {A : Type 0} (model : String) (answer : ℕ → A) where
  answered :
      (f : Fault) (w : World) (a : A)
      → (try
          (λ _. settle f (gets (λ w. answer w.clock)) w)
          (λ e. count "reimbursement_agent_llm_calls" (model ∷ "failure" ∷ []) >> raise e)
          (λ a. count "reimbursement_agent_llm_calls" (model ∷ "success" ∷ []) >> pure a)
          w).0
        ≡ ok a
      → (time : ℕ) × (a ≡ answer time)
  answered fine w a e = (w.clock, cc)
  answered (before x) w a e = cc
  answered (after x) w a e = cc

  -- One call of a model yields its answer to the prompt at some time.
  pub Yields-invoke : Yields (invoke model answer) (λ a. (time : ℕ) × (a ≡ answer time))
  unfolding invoke interact next_event
  Yields-invoke = record { at = λ w. answered (next_event w).0 (next_event w).1 }

abbrev pub Persisted : State → State → Type 0
Persisted s s' = (b : Bool) × (s' ≡ record s { persisted = some b })

Yields-persist :
    (s : State) (status : Option DecisionStatus) (reason : Option String)
    → Yields (persist s status reason) (Persisted s)
unfolding persist
Yields-persist s (some status) (some reason) =
    Yields-bind _ (λ _. Unit) (Persisted s) _ (Yields-any _)
      λ result u. Yields-pure _ (Persisted s) (is_persisted result, refl)
Yields-persist s (some status) none = record { at = λ w a e. cc }
Yields-persist s none reason = record { at = λ w a e. cc }

pub Yields-finalize : (s : State) → Yields (finalize s) (Persisted s)
unfolding finalize timed apply_agent_decision
Yields-finalize s = Yields-observed _ _ _ _ (Yields-persist s s.status s.decision_reason)

-- What the rules of the policy leave: a rule that applied, with its decision written, or none.
abbrev pub Ruled : ℕ → State → State → Type 0
Ruled today s s' =
    (date : ℕ) × (value : Decimal) × (s.extracted.receipts_date ≡ some date)
    × (s.extracted.value ≡ some value)
    × (((rule : PolicyRule) × (rule_for today date value ≡ some rule)
          × (reason : String) × (b : Bool) × (s' ≡ record s {
            status = some (rule_status rule);
            decision_reason = some reason;
            persisted = some b;
            requires_llm_judgment = false;
          }))
        ⊎ ((rule_for today date value ≡ none) × (s' ≡ record s { requires_llm_judgment = true })))

Yields-rule_applied :
    (s : State) (rule : PolicyRule) (reason : String)
    → Yields (rule_applied s rule reason) (λ s'.
      (b : Bool) × (s' ≡ record s {
        status = some (rule_status rule);
        decision_reason = some reason;
        persisted = some b;
        requires_llm_judgment = false;
      }))
unfolding rule_applied
Yields-rule_applied s rule reason =
    Yields-bind _ (λ _. Unit) _ _ (Yields-any _)
      λ result u. Yields-pure _ _ (is_persisted result, refl)

module _ (env : Env) where
  Yields-apply_rule :
      (s : State) (today date : ℕ) (value : Decimal) (rule : Option PolicyRule)
      → rule_for today date value ≡ rule
      → s.extracted.receipts_date ≡ some date
      → s.extracted.value ≡ some value
      → Yields (apply_rule env s today date value rule) (Ruled today s)
  unfolding apply_rule
  Yields-apply_rule s today date value none e d v =
      Yields-pure _ (Ruled today s) (date, value, d, v, inr (e, refl))
  Yields-apply_rule s today date value (some rule) e d v = record {
    at = λ w s' h.
        let (b, a) = (Yields-rule_applied s rule _).at _ s' h in
        (date, value, d, v, inl (rule, e, _, b, a));
  }

  Yields-apply_to :
      (s : State) (today : ℕ) (date : Option ℕ) (value : Option Decimal)
      → s.extracted.receipts_date ≡ date
      → s.extracted.value ≡ value
      → Yields (apply_to env s today date value) (Ruled today s)
  unfolding apply_to
  Yields-apply_to s today (some date) (some value) d v =
      Yields-apply_rule s today date value (rule_for today date value) refl d v
  Yields-apply_to s today (some date) none d v = record { at = λ w a e. cc }
  Yields-apply_to s today none value d v = record { at = λ w a e. cc }

  -- The day that the clock of the service shows is the day that the rules are asked for.
  pub Yields-apply_policies :
      (today : ℕ)
      → ((time : ℕ) → day (env.app_clock time) ≡ today)
      → (s : State) → Yields (apply_policies env s) (Ruled today s)
  unfolding apply_policies
  Yields-apply_policies today shows s = record {
    at = λ w s' h.
        let asked =
          (Yields-apply_to s (day (env.app_clock w.clock)) s.extracted.receipts_date
              s.extracted.value refl refl).at
            w s' h in
        rw (shows w.clock) at asked;
  }

module _ (env : Env) (llm : Llm) where
  abbrev pub Judged : State → State → Type 0
  Judged s s' =
      (time : ℕ) × (b : Bool) × (reason : String) × (s' ≡ record s {
        guardrail_verdict = some b;
        status = some (decision (llm.judge (analysis_prompt env llm s) time).status);
        decision_reason = some reason;
      })

  judged :
      (s : State) (v : GuardrailVerdict) (time : ℕ)
      → v ≡ llm.judge (analysis_prompt env llm s) time
      → Judged s (record s {
        guardrail_verdict = some (is_approval v.status);
        status = some (decision v.status);
        decision_reason = some v.reason;
      })
  judged s v time e = (time, is_approval v.status, v.reason, rw e refl)

  pub Yields-analysis : (s : State) → Yields (analysis env llm s) (Judged s)
  unfolding analysis
  Yields-analysis s =
      Yields-bind _ (λ v. (time : ℕ) × (v ≡ llm.judge (analysis_prompt env llm s) time)) (Judged s)
        _ (Yields-invoke llm.analysis_model (llm.judge (analysis_prompt env llm s)))
        λ v (time, e). Yields-pure _ (Judged s) (judged s v time e)
