-- ===== src/Examples/Agent.antt =====
-- The theorems on the agent and on the reviews, at concrete messages and states.
use reimbursement_analyzer.Env.{Env}
use reimbursement_analyzer.Prelude.{
  ℕ, zero, suc, ◌+◌, ◌<◌, ◌≤◌, String, ◌≡◌, ◌≢◌, Bool, true, false, Option, none, some, List, [],
  ◌∷◌, length, arith,
}
use reimbursement_analyzer.Prelude
use reimbursement_analyzer.Decimal.{Decimal}
use reimbursement_analyzer.Status
use reimbursement_analyzer.World.{World, Event, fine, before, Result, ok, raised, Poll, message}
use reimbursement_analyzer.Repository.Tables.{Row, Db}
use reimbursement_analyzer.Publisher.Consumer.Commits.{IsProgress}
use reimbursement_analyzer.Agent.Validation
use reimbursement_analyzer.Agent.Validation.{MessageOutcome}
use reimbursement_analyzer.Agent.Consumer as AgentConsumer
use reimbursement_analyzer.Agent.Consumer.Commits.{agent_run-IsProgress}
use reimbursement_analyzer.Agent.NeverRaises.{handle_message-returns}
use reimbursement_analyzer.Agent.Nodes.{extract_prompt, analysis_prompt}
use reimbursement_analyzer.Agent.Privacy.{with_submitter, prompts-private}
use reimbursement_analyzer.Json.{str}
use reimbursement_analyzer.Examples.{env, config, llm, failing_world, ending}

handle_message-returns_example :
    (outcome : MessageOutcome) × ((Validation.handle_message env llm config
        (some "m")
        failing_world).0
      ≡ ok outcome)
handle_message-returns_example = handle_message-returns env llm config "m" failing_world

-- A service whose clock stands still.
abbrev still_env : Env
still_env = record env { app_clock = λ t. 100 }

agent_run-IsProgress_example :
    IsProgress []
      (7 ∷ 8 ∷ [])
      (AgentConsumer.run env llm config
        ((false, message 7 (some "m")) ∷ (false, message 8 none) ∷ [])
        failing_world).0
      (AgentConsumer.run env llm config
        ((false, message 7 (some "m")) ∷ (false, message 8 none) ∷ [])
        failing_world).1.commits
agent_run-IsProgress_example =
    agent_run-IsProgress env llm config
      ((false, message 7 (some "m")) ∷ (false, message 8 none) ∷ []) failing_world

prompts-private_example :
    (extract_prompt env llm (with_submitter (str "bo@example.com") ending)
      ≡ extract_prompt env llm ending)
    × (analysis_prompt env llm (with_submitter (str "bo@example.com") ending)
        ≡ analysis_prompt env llm ending)
prompts-private_example = prompts-private env llm ending (str "bo@example.com")
