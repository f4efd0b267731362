-- ===== src/Publisher/Consumer.antt =====
-- `run` of publisher/consumer.py: one message at a time, handled and then committed.
pub mod Commits
use reimbursement_analyzer.Prelude.{
  ℕ, String, Bool, true, false, Option, none, some, List, [], ◌∷◌, ◌++◌, map,
}
use reimbursement_analyzer.Json.{Json, str, arr, obj, dict, items}
use reimbursement_analyzer.Errors.{Exc}
use reimbursement_analyzer.Config.{Config, request_topic}
use reimbursement_analyzer.Env.{Env}
use reimbursement_analyzer.World.{
  World, Result, ok, raised, Action, pure, modify, interact, try, log, count, Poll, nothing, broken,
  message, commit, ◌>>=◌, ◌>>◌,
}
use reimbursement_analyzer.Publisher.Processing.{ItemOutcome, outcome_value, handle_message}

message_handled : List ItemOutcome → Action (Unit {0})
message_handled outcomes = log (
    obj (
      dict (
        ("event", str "reimbursement.message_handled")
        ∷ ("outcomes", arr (items (map (λ o. str (outcome_value o)) outcomes)))
        ∷ [])))

-- One message: an exception from the handler is logged, and the offset is committed all the same.
unfoldable pub consume_one : Env → Config → ℕ → Option String → Action (Unit {0})
unfolding message_handled
consume_one env config offset value = do
  count "publisher_messages_consumed" (request_topic ∷ [])
  try (handle_message env config value) (λ _. pure tt) message_handled
  commit offset

-- The loop, over what `stopping.is_set()` and `consume()` answer in each round.
unfoldable pub run : Env → Config → List (Bool × Poll) → Action (Unit {0})
run env config [] = pure tt
run env config ((true, poll) ∷ rounds) = pure tt
run env config ((false, nothing) ∷ rounds) = run env config rounds
run env config ((false, broken) ∷ rounds) = run env config rounds
run env config ((false, message offset value) ∷ rounds) = do
  consume_one env config offset value
  run env config rounds
