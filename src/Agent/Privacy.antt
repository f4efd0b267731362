-- ===== src/Agent/Privacy.antt =====
-- The submitter's address and the prompts of the two nodes that ask a model.
use reimbursement_analyzer.Prelude.{
  String, ◌≡◌, refl, true, str_eq, eq_iff, Bool-cases, inl, inr, arith,
}
use reimbursement_analyzer.Json.{Json, Fields, end, field, set, without}
use reimbursement_analyzer.Env.{Env}
use reimbursement_analyzer.Agent.State.{State, Llm}
use reimbursement_analyzer.Agent.Nodes.{extract_prompt, analysis_prompt}

same_text : (k : String) → str_eq k k ≡ true
same_text k = ground (arith, eq_iff k k)

without-set : (k : String) (v : Json) (fs : Fields) → without k (set k v fs) ≡ without k fs
unfolding without set
without-set k v end = rw (same_text k, without) refl
without-set k v (field j w fs) = elim (Bool-cases (str_eq j k)) [
  | inl same ↦ rw (same, set) (rw (same, without) refl)
  | inr other_key ↦ rw (other_key, set) (rw (other_key, without) (rw (without-set k v fs) refl))
]

-- The state of a reimbursement with another submitter.
abbrev pub with_submitter : Json → State → State
with_submitter v s = record s {
  reimbursement = record s.reimbursement {
    original_payload = set "submitted_by" v s.reimbursement.original_payload;
  };
}

-- The prompts do not depend on the field `submitted_by`: with any other value in it, or with one
-- where there was none, both models are asked the same.
pub prompts-private :
    (env : Env) (llm : Llm) (s : State) (v : Json)
    → (extract_prompt env llm (with_submitter v s) ≡ extract_prompt env llm s)
      × (analysis_prompt env llm (with_submitter v s) ≡ analysis_prompt env llm s)
prompts-private env llm s v =
    let e = without-set "submitted_by" v s.reimbursement.original_payload in (rw e refl, rw e refl)
