-- ===== src/Agent/Consumer.antt =====
-- `run` of the agent's consumer.py: one message at a time, handled and then committed. There is no
-- `try` around the handler.
pub mod Commits
use reimbursement_analyzer.Prelude.{ℕ, String, Bool, true, false, Option, List, [], ◌∷◌}
use reimbursement_analyzer.Config.{Config, reimbursement_topic}
use reimbursement_analyzer.Env.{Env}
use reimbursement_analyzer.World.{
  Action, pure, count, Poll, nothing, broken, message, commit, ◌>>=◌, ◌>>◌,
}
use reimbursement_analyzer.Agent.State.{Llm}
use reimbursement_analyzer.Agent.Validation.{handle_message}

-- One message: an exception from the handler leaves the loop, and its offset is not committed.
unfoldable pub consume_one : Env → Llm → Config → ℕ → Option String → Action (Unit {0})
consume_one env llm config offset value = do
  count "reimbursement_messages_consumed" (reimbursement_topic ∷ [])
  handle_message env llm config value
  commit offset

-- The loop, over what `stopping.is_set()` and `consume()` answer in each round.
unfoldable pub run : Env → Llm → Config → List (Bool × Poll) → Action (Unit {0})
run env llm config [] = pure tt
run env llm config ((true, poll) ∷ rounds) = pure tt
run env llm config ((false, nothing) ∷ rounds) = run env llm config rounds
run env llm config ((false, broken) ∷ rounds) = run env llm config rounds
run env llm config ((false, message offset value) ∷ rounds) = do
  consume_one env llm config offset value
  run env llm config rounds
