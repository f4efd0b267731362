-- ===== src/Agent/Graph.antt =====
-- agent/agent.py: the edges of the graph, and `decide`.
use reimbursement_analyzer.Prelude.{String, Bool, true, false, List, [], ◌∷◌, if◌then◌else◌}
use reimbursement_analyzer.Env.{Env}
use reimbursement_analyzer.World.{Action, pure, count, ◌>>=◌}
use reimbursement_analyzer.Agent.State.{Reimbursement, State, initial, Llm}
use reimbursement_analyzer.Agent.Nodes.{
  extract_fields, validate, apply_policies, analysis, apply_agent_decision,
}

-- `try: m; finally: observe`, for a duration, which is not modelled
unfoldable pub observed {ℓ} : {A : Type ℓ} → String → List String → Action A → Action A
observed metric labels m w = let (r, w') = m w in (r, (count metric labels w').1)

-- `_timed_node`
unfoldable pub timed : String → String → Action State → Action State
unfolding observed
timed name model node =
    observed "reimbursement_agent_node_duration_seconds" (name ∷ model ∷ []) node

abbrev is_empty {ℓ} : {A : Type ℓ} → List A → Bool
is_empty [] = true
is_empty (x ∷ xs) = false

unfoldable pub finalize : State → Action State
unfolding timed
finalize s = timed "apply_agent_decision" "" (apply_agent_decision s)

-- `route_after_apply_policies`
unfoldable pub after_policies : Env → Llm → State → Action State
unfolding timed finalize
after_policies env llm s =
    if s.requires_llm_judgment
    then timed "analysis" llm.analysis_model (analysis env llm s) >>= finalize
    else pure s

-- `route_after_validate`
unfoldable pub after_validate : Env → Llm → State → Action State
unfolding timed finalize after_policies
after_validate env llm s =
    if is_empty s.missing_fields
    then timed "apply_policies" "" (apply_policies env s) >>= after_policies env llm
    else finalize s

unfoldable pub after_extract_fields : Env → Llm → State → Action State
unfolding timed after_validate
after_extract_fields env llm s = timed "validate" "" (validate s) >>= after_validate env llm

-- The graph from START to END.
unfoldable pub run_graph : Env → Llm → State → Action State
unfolding timed after_extract_fields
run_graph env llm s =
    timed "extract_fields" llm.extract_model (extract_fields env llm s)
    >>= after_extract_fields env llm

unfoldable pub decide : Env → Llm → Reimbursement → Action State
unfolding observed run_graph
decide env llm r =
    observed "reimbursement_agent_decision_duration_seconds" [] (run_graph env llm (initial r))
