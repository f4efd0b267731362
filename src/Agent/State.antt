-- ===== src/Agent/State.antt =====
-- The state of the decision graph (schema.py, models.py), and the language model behind it.
use reimbursement_analyzer.Prelude.{ℕ, String, Bool, false, Option, none, List, []}
use reimbursement_analyzer.Json.{Fields}
use reimbursement_analyzer.Decimal.{Decimal}
use reimbursement_analyzer.Status.{DecisionStatus, approve, review}

-- `Reimbursement`
pub record Reimbursement : Type 0 where
  pub uuid : ℕ
  pub original_payload : Fields

-- `ExtractedFields`
pub record ExtractedFields : Type 0 where
  pub value : Option Decimal
  pub currency : Option String
  pub receipts_date : Option ℕ

-- `GuardrailVerdict`: its status is one of two.
pub data GuardrailStatus : Type 0 where
  auto_approved human_review : GuardrailStatus

abbrev pub decision : GuardrailStatus → DecisionStatus
decision auto_approved = approve
decision human_review = review

pub record GuardrailVerdict : Type 0 where
  pub status : GuardrailStatus
  pub reason : String

-- `State`; a key that no node has written yet holds nothing.
pub record State : Type 0 where
  pub reimbursement : Reimbursement
  pub extracted : ExtractedFields
  pub missing_fields : List String
  pub requires_llm_judgment : Bool
  pub status : Option DecisionStatus
  pub decision_reason : Option String
  pub persisted : Option Bool
  pub guardrail_verdict : Option Bool

abbrev pub initial : Reimbursement → State
initial r = record {
  reimbursement = r;
  extracted = record { value = none; currency = none; receipts_date = none };
  missing_fields = [];
  requires_llm_judgment = false;
  status = none;
  decision_reason = none;
  persisted = none;
  guardrail_verdict = none;
}

-- The two models, as functions of the prompt and the time, with their names and their templates.
pub record Llm : Type 0 where
  pub extract : String → ℕ → ExtractedFields
  pub judge : String → ℕ → GuardrailVerdict
  pub extract_model : String
  pub analysis_model : String
  pub extract_template : String
  pub analysis_template : String
  -- `str` of the dict that the analysis prompt shows as found data
  pub found_data : ExtractedFields → String
